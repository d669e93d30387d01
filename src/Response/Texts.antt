-- ===== src/Response/Texts.antt =====
-- The status lines and the stock pages of src/http_server/response.cpp.
use learn_asio.Base.{ℕ, [], ◌∷◌, ◌++◌, Bytes, codes}

-- response::status_code. An object of the enumeration can hold any other int too.
pub data StatusCode : Type 0 where
  ok : StatusCode
  created : StatusCode
  accepted : StatusCode
  no_content : StatusCode
  multiple_choices : StatusCode
  moved_permanently : StatusCode
  moved_temporarily : StatusCode
  not_modified : StatusCode
  bad_request : StatusCode
  unauthorized : StatusCode
  forbidden : StatusCode
  not_found : StatusCode
  internal_server_error : StatusCode
  not_implemented : StatusCode
  bad_gateway : StatusCode
  service_unavailable : StatusCode
  unlisted : ℕ → StatusCode

-- The enumerators' values.
unfoldable pub number : StatusCode → ℕ
number ok = 200
number created = 201
number accepted = 202
number no_content = 204
number multiple_choices = 300
number moved_permanently = 301
number moved_temporarily = 302
number not_modified = 304
number bad_request = 400
number unauthorized = 401
number forbidden = 403
number not_found = 404
number internal_server_error = 500
number not_implemented = 501
number bad_gateway = 502
number service_unavailable = 503
number (unlisted n) = n

-- misc_strings
abbrev pub name_value_separator : Bytes
name_value_separator = 58 ∷ 32 ∷ []

abbrev pub crlf : Bytes
crlf = 13 ∷ 10 ∷ []

-- status_strings::to_buffer, with the strings in place.
unfoldable pub to_buffer : StatusCode → Bytes
to_buffer ok = codes "HTTP/1.0 200 OK" ++ crlf
to_buffer created = codes "HTTP/1.0 201 Created" ++ crlf
to_buffer accepted = codes "HTTP/1.0 202 Accepted" ++ crlf
to_buffer no_content = codes "HTTP/1.0 204 No Content" ++ crlf
to_buffer multiple_choices = codes "HTTP/1.0 300 Multiple Choices" ++ crlf
to_buffer moved_permanently = codes "HTTP/1.0 301 Moved Permanently" ++ crlf
to_buffer moved_temporarily = codes "HTTP/1.0 302 Moved Temporarily" ++ crlf
to_buffer not_modified = codes "HTTP/1.0 304 Not Modified" ++ crlf
to_buffer bad_request = codes "HTTP/1.0 400 Bad Request" ++ crlf
to_buffer unauthorized = codes "HTTP/1.0 401 Unauthorized" ++ crlf
to_buffer forbidden = codes "HTTP/1.0 403 Forbidden" ++ crlf
to_buffer not_found = codes "HTTP/1.0 404 Not Found" ++ crlf
to_buffer internal_server_error = codes "HTTP/1.0 500 Internal Server Error" ++ crlf
to_buffer not_implemented = codes "HTTP/1.0 501 Not Implemented" ++ crlf
to_buffer bad_gateway = codes "HTTP/1.0 502 Bad Gateway" ++ crlf
to_buffer service_unavailable = codes "HTTP/1.0 503 Service Unavailable" ++ crlf
to_buffer (unlisted n) = codes "HTTP/1.0 500 Internal Server Error" ++ crlf

-- stock_replies::to_string, with the pages in place.
unfoldable pub to_string : StatusCode → Bytes
to_string ok = codes ""
to_string created =
    codes "<html><head><title>Created</title></head><body><h1>201 Created</h1></body></html>"
to_string accepted =
    codes "<html><head><title>Accepted</title></head><body><h1>202 Accepted</h1></body></html>"
to_string no_content =
    codes "<html><head><title>No Content</title></head><body><h1>204 Content</h1></body></html>"
to_string multiple_choices =
    codes
      "<html><head><title>Multiple Choices</title></head><body><h1>300 Multiple Choices</h1></body></html>"
to_string moved_permanently =
    codes
      "<html><head><title>Moved Permanently</title></head><body><h1>301 Moved Permanently</h1></body></html>"
to_string moved_temporarily =
    codes
      "<html><head><title>Moved Temporarily</title></head><body><h1>302 Moved Temporarily</h1></body></html>"
to_string not_modified =
    codes
      "<html><head><title>Not Modified</title></head><body><h1>304 Not Modified</h1></body></html>"
to_string bad_request =
    codes
      "<html><head><title>Bad Request</title></head><body><h1>400 Bad Request</h1></body></html>"
to_string unauthorized =
    codes
      "<html><head><title>Unauthorized</title></head><body><h1>401 Unauthorized</h1></body></html>"
to_string forbidden =
    codes "<html><head><title>Forbidden</title></head><body><h1>403 Forbidden</h1></body></html>"
to_string not_found =
    codes "<html><head><title>Not Found</title></head><body><h1>404 Not Found</h1></body></html>"
to_string internal_server_error =
    codes
      "<html><head><title>Internal Server Error</title></head><body><h1>500 Internal Server Error</h1></body></html>"
to_string not_implemented =
    codes
      "<html><head><title>Not Implemented</title></head><body><h1>501 Not Implemented</h1></body></html>"
to_string bad_gateway =
    codes
      "<html><head><title>Bad Gateway</title></head><body><h1>502 Bad Gateway</h1></body></html>"
to_string service_unavailable =
    codes
      "<html><head><title>Service Unavailable</title></head><body><h1>503 Service Unavailable</h1></body></html>"
to_string (unlisted n) =
    codes
      "<html><head><title>Internal Server Error</title></head><body><h1>500 Internal Server Error</h1></body></html>"
