-- ===== src/Translation/Headers.antt =====
-- pkg/model/translation/envoy_virtual_host.go: the headers that a route adds and removes.
use controller_powered_by_di.Base.{String, Option, none, some, List, [], ◌++◌, map}
use controller_powered_by_di.Model.{HttpHeaderFilter}
use controller_powered_by_di.Translation.Envoy.{AppendAction, HeaderValueOption, HeaderChanges}

unfoldable pub get_headers_to_add : Option HttpHeaderFilter → List HeaderValueOption
get_headers_to_add none = []
get_headers_to_add (some filter) =
    map
      (λ h. record {
        key = h.name;
        value = h.value;
        append_action = AppendAction.append_if_exists_or_add;
      })
      filter.headers_to_add
    ++ map
        (λ h. record {
          key = h.name;
          value = h.value;
          append_action = AppendAction.overwrite_if_exists_or_add;
        })
        filter.headers_to_set

unfoldable pub get_headers_to_remove : Option HttpHeaderFilter → List String
get_headers_to_remove none = []
get_headers_to_remove (some filter) = filter.headers_to_remove

-- The four lists for a filter of the requests and one of the responses.
unfoldable pub header_changes : Option HttpHeaderFilter → Option HttpHeaderFilter → HeaderChanges
unfolding get_headers_to_add get_headers_to_remove
header_changes request response = record {
  request_headers_to_add = get_headers_to_add request;
  request_headers_to_remove = get_headers_to_remove request;
  response_headers_to_add = get_headers_to_add response;
  response_headers_to_remove = get_headers_to_remove response;
}

-- The four appends.
unfoldable pub append_changes : HeaderChanges → HeaderChanges → HeaderChanges
append_changes a b = record {
  request_headers_to_add = a.request_headers_to_add ++ b.request_headers_to_add;
  request_headers_to_remove = a.request_headers_to_remove ++ b.request_headers_to_remove;
  response_headers_to_add = a.response_headers_to_add ++ b.response_headers_to_add;
  response_headers_to_remove = a.response_headers_to_remove ++ b.response_headers_to_remove;
}
