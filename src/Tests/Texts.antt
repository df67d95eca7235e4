-- ===== src/Tests/Texts.antt =====
-- Instances of the theorems on the text forms of requests and responses.
use http_web_framework.Prelude.{List, [], arith, refl, some, ◌∷◌, ◌≡◌}
use http_web_framework.Text.{Bytes, codes, is_space, strip_return, trim_back, trim_front}
use http_web_framework.Types.{HttpHeader, HttpMethod, http_1_0, http_1_1}
use http_web_framework.Wire.Headers.{IsLine, add_all}
use http_web_framework.Request.{Request, add_header, set_body}
use http_web_framework.Request.BodyTrip.{parse_request-print_body, sent_headers}
use http_web_framework.Wire.{join_lines}
use http_web_framework.Wire.Bodies.{IsBody, IsBodyLine}
use http_web_framework.Response.Body.{set_body as set_response_body}
use http_web_framework.Request.Uri.{parse_uri}
use http_web_framework.Request.Query.{parse_query_string}
use http_web_framework.Request.Cookies.{parse_cookies}
use http_web_framework.Request.Wire.{parse_request, print_request}
use http_web_framework.Request.RoundTrip.{parse_request-print_request}
use http_web_framework.Wire.FirstLine.{IsWord, known_1_0, known_1_1}
use http_web_framework.Response.{Response, add_header as add_response_header}
use http_web_framework.Response.Wire.{parse_response, print_response}
use http_web_framework.Response.RoundTrip.{parse_response-print_response, parse_response-print_body}
use http_web_framework.Tests.Responses.{plain}
use http_web_framework.Tests.Requests.{blank}

abbrev host_header : HttpHeader
host_header = record { name = codes "host"; value = codes "a.org" }

abbrev search_request : Request
search_request = record blank {
  method = HttpMethod.delete;
  uri = codes "/s?q=1";
  version = http_1_0;
  headers = host_header ∷ [];
}

host_header-IsLine : IsLine host_header
unfolding trim_front trim_back is_space
host_header-IsLine = record {
  no_colon = ground arith;
  name_line = ground arith;
  value_line = ground arith;
  trimmed = (refl, refl);
}

search-IsWord : IsWord search_request.uri
unfolding is_space
search-IsWord = record { some_byte = refl; no_space = ground arith }

parse_request-print_request_example :
    parse_request blank (print_request (record search_request { body = [] }))
    ≡ parse_cookies (
        parse_query_string (
          parse_uri (
            add_all add_header
              (host_header ∷ [])
              (record blank { uri = codes "/s?q=1"; version = http_1_0 }))))
parse_request-print_request_example =
    parse_request-print_request search_request blank search-IsWord known_1_0
      (host_header-IsLine, tt)

abbrev teapot_response : Response
teapot_response = record plain {
  status_code = 418;
  status_message = codes "I'm a teapot";
  headers = host_header ∷ [];
}

parse_response-print_response_example :
    parse_response plain (print_response (record teapot_response { body = []; cookies = [] }))
    ≡ some (
        add_all add_response_header (host_header ∷ []) (record plain {
          version = http_1_1;
          status_code = 418;
          status_message = codes "I'm a teapot";
        }))
parse_response-print_response_example =
    parse_response-print_response teapot_response plain known_1_1 (omega arith) (ground arith)
      (host_header-IsLine, tt)

abbrev two_lines : List Bytes
two_lines = codes "{" ∷ codes "}" ∷ []

two_lines-IsBody : IsBody two_lines
unfolding IsBody IsBodyLine strip_return
two_lines-IsBody = ((ground arith, refl), ((ground arith, refl), refl))

parse_request-print_body_example :
    parse_request blank (print_request (record search_request { body = join_lines two_lines }))
    ≡ parse_cookies (
        parse_query_string (
          parse_uri (
            set_body (join_lines two_lines) (
              add_all add_header
                (sent_headers search_request two_lines)
                (record blank { uri = codes "/s?q=1"; version = http_1_0 })))))
parse_request-print_body_example =
    parse_request-print_body search_request blank two_lines search-IsWord known_1_0
      (host_header-IsLine, tt) two_lines-IsBody

parse_response-print_body_example :
    parse_response plain
      (print_response (record teapot_response { body = join_lines two_lines; cookies = [] }))
    ≡ some (
        set_response_body (join_lines two_lines) (
          add_all add_response_header (host_header ∷ []) (record plain {
            version = http_1_1;
            status_code = 418;
            status_message = codes "I'm a teapot";
          })))
parse_response-print_body_example =
    parse_response-print_body teapot_response plain two_lines known_1_1 (omega arith) (ground arith)
      (host_header-IsLine, tt) two_lines-IsBody
