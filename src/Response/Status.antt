-- ===== src/Response/Status.antt =====
-- The status line and the stock page of every status code against one template for all of them.
use learn_asio.Base.{◌≡◌, refl, true, [], ◌++◌, Bytes, lacks, codes}
use learn_asio.Base.Decimal.{to_decimal}
use learn_asio.Response.Texts.{
  StatusCode, ok, created, accepted, no_content, multiple_choices, moved_permanently,
  moved_temporarily, not_modified, bad_request, unauthorized, forbidden, not_found,
  internal_server_error, not_implemented, bad_gateway, service_unavailable, unlisted, number,
  to_buffer, to_string, crlf,
}

-- The code that a response is sent under: a value outside the enumeration goes out as a 500.
abbrev pub sent_as : StatusCode → StatusCode
sent_as (unlisted n) = internal_server_error
sent_as ok = ok
sent_as created = created
sent_as accepted = accepted
sent_as no_content = no_content
sent_as multiple_choices = multiple_choices
sent_as moved_permanently = moved_permanently
sent_as moved_temporarily = moved_temporarily
sent_as not_modified = not_modified
sent_as bad_request = bad_request
sent_as unauthorized = unauthorized
sent_as forbidden = forbidden
sent_as not_found = not_found
sent_as internal_server_error = internal_server_error
sent_as not_implemented = not_implemented
sent_as bad_gateway = bad_gateway
sent_as service_unavailable = service_unavailable

-- The reason phrase of each code.
abbrev reason : StatusCode → Bytes
reason ok = codes "OK"
reason created = codes "Created"
reason accepted = codes "Accepted"
reason no_content = codes "No Content"
reason multiple_choices = codes "Multiple Choices"
reason moved_permanently = codes "Moved Permanently"
reason moved_temporarily = codes "Moved Temporarily"
reason not_modified = codes "Not Modified"
reason bad_request = codes "Bad Request"
reason unauthorized = codes "Unauthorized"
reason forbidden = codes "Forbidden"
reason not_found = codes "Not Found"
reason internal_server_error = codes "Internal Server Error"
reason not_implemented = codes "Not Implemented"
reason bad_gateway = codes "Bad Gateway"
reason service_unavailable = codes "Service Unavailable"
reason (unlisted n) = codes "Internal Server Error"

unfoldable pub status_line : StatusCode → Bytes
status_line s = codes "HTTP/1.0 " ++ to_decimal (number (sent_as s)) ++ codes " " ++ reason s

pub to_buffer-status_line : (s : StatusCode) → to_buffer s ≡ status_line s ++ crlf
unfolding to_buffer status_line number to_decimal
to_buffer-status_line ok = refl
to_buffer-status_line created = refl
to_buffer-status_line accepted = refl
to_buffer-status_line no_content = refl
to_buffer-status_line multiple_choices = refl
to_buffer-status_line moved_permanently = refl
to_buffer-status_line moved_temporarily = refl
to_buffer-status_line not_modified = refl
to_buffer-status_line bad_request = refl
to_buffer-status_line unauthorized = refl
to_buffer-status_line forbidden = refl
to_buffer-status_line not_found = refl
to_buffer-status_line internal_server_error = refl
to_buffer-status_line not_implemented = refl
to_buffer-status_line bad_gateway = refl
to_buffer-status_line service_unavailable = refl
to_buffer-status_line (unlisted n) = refl

pub lacks-status_line : (s : StatusCode) → lacks 13 (status_line s) ≡ true
unfolding status_line number to_decimal
lacks-status_line ok = refl
lacks-status_line created = refl
lacks-status_line accepted = refl
lacks-status_line no_content = refl
lacks-status_line multiple_choices = refl
lacks-status_line moved_permanently = refl
lacks-status_line moved_temporarily = refl
lacks-status_line not_modified = refl
lacks-status_line bad_request = refl
lacks-status_line unauthorized = refl
lacks-status_line forbidden = refl
lacks-status_line not_found = refl
lacks-status_line internal_server_error = refl
lacks-status_line not_implemented = refl
lacks-status_line bad_gateway = refl
lacks-status_line service_unavailable = refl
lacks-status_line (unlisted n) = refl

abbrev pub html_page : Bytes → Bytes → Bytes
html_page title heading =
    codes "<html><head><title>"
    ++ title
    ++ codes "</title></head><body><h1>"
    ++ heading
    ++ codes "</h1></body></html>"

-- The heading of a stock page: the number and the reason phrase; that of 204 leaves the "No" out.
abbrev heading : StatusCode → Bytes
heading no_content = codes "204 Content"
heading ok = to_decimal (number ok) ++ codes " " ++ reason ok
heading created = to_decimal (number created) ++ codes " " ++ reason created
heading accepted = to_decimal (number accepted) ++ codes " " ++ reason accepted
heading multiple_choices =
    to_decimal (number multiple_choices) ++ codes " " ++ reason multiple_choices
heading moved_permanently =
    to_decimal (number moved_permanently) ++ codes " " ++ reason moved_permanently
heading moved_temporarily =
    to_decimal (number moved_temporarily) ++ codes " " ++ reason moved_temporarily
heading not_modified = to_decimal (number not_modified) ++ codes " " ++ reason not_modified
heading bad_request = to_decimal (number bad_request) ++ codes " " ++ reason bad_request
heading unauthorized = to_decimal (number unauthorized) ++ codes " " ++ reason unauthorized
heading forbidden = to_decimal (number forbidden) ++ codes " " ++ reason forbidden
heading not_found = to_decimal (number not_found) ++ codes " " ++ reason not_found
heading internal_server_error =
    to_decimal (number internal_server_error) ++ codes " " ++ reason internal_server_error
heading not_implemented = to_decimal (number not_implemented) ++ codes " " ++ reason not_implemented
heading bad_gateway = to_decimal (number bad_gateway) ++ codes " " ++ reason bad_gateway
heading service_unavailable =
    to_decimal (number service_unavailable) ++ codes " " ++ reason service_unavailable
heading (unlisted n) = codes "500 Internal Server Error"

unfoldable pub stock_page : StatusCode → Bytes
stock_page ok = []
stock_page created = html_page (reason created) (heading created)
stock_page accepted = html_page (reason accepted) (heading accepted)
stock_page no_content = html_page (reason no_content) (heading no_content)
stock_page multiple_choices = html_page (reason multiple_choices) (heading multiple_choices)
stock_page moved_permanently = html_page (reason moved_permanently) (heading moved_permanently)
stock_page moved_temporarily = html_page (reason moved_temporarily) (heading moved_temporarily)
stock_page not_modified = html_page (reason not_modified) (heading not_modified)
stock_page bad_request = html_page (reason bad_request) (heading bad_request)
stock_page unauthorized = html_page (reason unauthorized) (heading unauthorized)
stock_page forbidden = html_page (reason forbidden) (heading forbidden)
stock_page not_found = html_page (reason not_found) (heading not_found)
stock_page internal_server_error =
    html_page (reason internal_server_error) (heading internal_server_error)
stock_page not_implemented = html_page (reason not_implemented) (heading not_implemented)
stock_page bad_gateway = html_page (reason bad_gateway) (heading bad_gateway)
stock_page service_unavailable =
    html_page (reason service_unavailable) (heading service_unavailable)
stock_page (unlisted n) = html_page (reason (unlisted n)) (heading (unlisted n))

to_string-stock_page : (s : StatusCode) → to_string s ≡ stock_page s
unfolding to_string stock_page number to_decimal
to_string-stock_page ok = refl
to_string-stock_page created = refl
to_string-stock_page accepted = refl
to_string-stock_page no_content = refl
to_string-stock_page multiple_choices = refl
to_string-stock_page moved_permanently = refl
to_string-stock_page moved_temporarily = refl
to_string-stock_page not_modified = refl
to_string-stock_page bad_request = refl
to_string-stock_page unauthorized = refl
to_string-stock_page forbidden = refl
to_string-stock_page not_found = refl
to_string-stock_page internal_server_error = refl
to_string-stock_page not_implemented = refl
to_string-stock_page bad_gateway = refl
to_string-stock_page service_unavailable = refl
to_string-stock_page (unlisted n) = refl

-- Every status line is the version, the number of the code in decimal and its reason phrase; a
-- value outside the enumeration is announced as 500. The stock content of 200 is empty. That of
-- every other code is the page with its reason phrase for the title and, but for 204 ("204
-- Content"), its number and reason phrase for the heading; a value outside the enumeration has the
-- page of 500.
to_buffer-to_string :
    (s : StatusCode) → (to_buffer s ≡ status_line s ++ crlf) × (to_string s ≡ stock_page s)
to_buffer-to_string s = (to_buffer-status_line s, to_string-stock_page s)
