-- ===== src/Http.antt =====
-- The protocol constants of src/http.h and the texts that src/http.c gives for them.
pub mod Status
pub mod Method
use spdy_test.Prelude.{ℕ, List, [], ◌∷◌, ◌==◌, if◌then◌else◌}
use spdy_test.Ret.{Ret}
use spdy_test.Header.{codes}

-- The `entry` lines of http2d_http_code_to_string: a status code and its string.
abbrev pub code_entries : List (ℕ × List ℕ)
code_entries =
    (200, codes "200 OK")
    ∷ (201, codes "201 Created")
    ∷ (202, codes "202 Accepted")
    ∷ (203, codes "203 Non-Authoritative Information")
    ∷ (204, codes "204 No Content")
    ∷ (205, codes "205 Reset Content")
    ∷ (206, codes "206 Partial Content")
    ∷ (207, codes "207 Multi-Status")
    ∷ (226, codes "226 IM Used")
    ∷ (301, codes "301 Moved Permanently")
    ∷ (302, codes "302 Moved Temporarily")
    ∷ (303, codes "303 See Other")
    ∷ (304, codes "304 Not Modified")
    ∷ (307, codes "307 Temporary Redirect")
    ∷ (300, codes "300 Multiple Choices")
    ∷ (305, codes "305 Use Proxy")
    ∷ (400, codes "400 Bad Request")
    ∷ (401, codes "401 Authorization Required")
    ∷ (403, codes "403 Forbidden")
    ∷ (404, codes "404 Not Found")
    ∷ (405, codes "405 Method Not Allowed")
    ∷ (406, codes "406 Not Acceptable")
    ∷ (408, codes "408 Request Time-out")
    ∷ (410, codes "410 Gone")
    ∷ (411, codes "411 Length Required")
    ∷ (413, codes "413 Request Entity too large")
    ∷ (415, codes "415 Unsupported Media Type")
    ∷ (414, codes "414 Request-URI too long")
    ∷ (416, codes "416 Requested range not satisfiable")
    ∷ (426, codes "426 Upgrade Required")
    ∷ (402, codes "402 Payment Required")
    ∷ (407, codes "407 Proxy Authentication Required")
    ∷ (409, codes "409 Conflict")
    ∷ (412, codes "412 Precondition Failed")
    ∷ (417, codes "417 Expectation Failed")
    ∷ (422, codes "422 Unprocessable Entity")
    ∷ (423, codes "423 Locked")
    ∷ (424, codes "424 Failed Dependency")
    ∷ (425, codes "425 Unordered Collection")
    ∷ (449, codes "449 Retry With")
    ∷ (500, codes "500 Internal Server Error")
    ∷ (501, codes "501 Not Implemented")
    ∷ (502, codes "502 Bad gateway")
    ∷ (503, codes "503 Service Unavailable")
    ∷ (504, codes "504 Gateway Timeout")
    ∷ (505, codes "505 HTTP Version Not Supported")
    ∷ (506, codes "506 Variant Also Negotiates")
    ∷ (507, codes "507 Insufficient Storage")
    ∷ (509, codes "509 Bandwidth Limit Exceeded")
    ∷ (510, codes "510 Not Extended")
    ∷ (100, codes "100 Continue")
    ∷ (102, codes "102 Processing")
    ∷ []

-- The `entry_code` lines of http2d_http_code_copy.
abbrev pub copy_entries : List (ℕ × List ℕ)
copy_entries =
    (200, codes "200 OK")
    ∷ (201, codes "201 Created")
    ∷ (202, codes "202 Accepted")
    ∷ (203, codes "203 Non-Authoritative Information")
    ∷ (204, codes "204 No Content")
    ∷ (205, codes "205 Reset Content")
    ∷ (206, codes "206 Partial Content")
    ∷ (207, codes "207 Multi-Status")
    ∷ (226, codes "226 IM Used")
    ∷ (301, codes "301 Moved Permanently")
    ∷ (302, codes "302 Moved Temporarily")
    ∷ (303, codes "303 See Other")
    ∷ (304, codes "304 Not Modified")
    ∷ (307, codes "307 Temporary Redirect")
    ∷ (300, codes "300 Multiple Choices")
    ∷ (305, codes "305 Use Proxy")
    ∷ (400, codes "400 Bad Request")
    ∷ (401, codes "401 Authorization Required")
    ∷ (403, codes "403 Forbidden")
    ∷ (404, codes "404 Not Found")
    ∷ (405, codes "405 Method Not Allowed")
    ∷ (406, codes "406 Not Acceptable")
    ∷ (408, codes "408 Request Time-out")
    ∷ (411, codes "411 Length Required")
    ∷ (410, codes "410 Gone")
    ∷ (413, codes "413 Request Entity too large")
    ∷ (414, codes "414 Request-URI too long")
    ∷ (415, codes "415 Unsupported Media Type")
    ∷ (416, codes "416 Requested range not satisfiable")
    ∷ (426, codes "426 Upgrade Required")
    ∷ (402, codes "402 Payment Required")
    ∷ (407, codes "407 Proxy Authentication Required")
    ∷ (409, codes "409 Conflict")
    ∷ (412, codes "412 Precondition Failed")
    ∷ (417, codes "417 Expectation Failed")
    ∷ (422, codes "422 Unprocessable Entity")
    ∷ (423, codes "423 Locked")
    ∷ (424, codes "424 Failed Dependency")
    ∷ (425, codes "425 Unordered Collection")
    ∷ (449, codes "449 Retry With")
    ∷ (500, codes "500 Internal Server Error")
    ∷ (501, codes "501 Not Implemented")
    ∷ (502, codes "502 Bad gateway")
    ∷ (503, codes "503 Service Unavailable")
    ∷ (504, codes "504 Gateway Timeout")
    ∷ (505, codes "505 HTTP Version Not Supported")
    ∷ (507, codes "507 Insufficient Storage")
    ∷ (509, codes "509 Bandwidth Limit Exceeded")
    ∷ (510, codes "510 Not Extended")
    ∷ (506, codes "506 Variant Also Negotiates")
    ∷ (100, codes "100 Continue")
    ∷ (102, codes "102 Processing")
    ∷ []

-- `switch (code)` over such lines, with the `default` branch.
unfoldable pub switch_code : ℕ → List (ℕ × List ℕ) → List ℕ → Ret × List ℕ
switch_code code [] unknown = (Ret.error, unknown)
switch_code code ((c, str) ∷ entries) unknown =
    if code == c then (Ret.ok, str) else switch_code code entries unknown

-- The code is any number that fits the enumeration, listed or not. `*len` is the string's length,
-- left at the caller's value in the `default` branch.
unfoldable pub http_code_to_string : ℕ → Ret × List ℕ
unfolding switch_code
http_code_to_string code = switch_code code code_entries (codes "500 Unknown error")

-- The string that is appended to the buffer, and what is returned if that succeeds.
unfoldable pub http_code_copy : ℕ → Ret × List ℕ
unfolding switch_code
http_code_copy code = switch_code code copy_entries (codes "500 Internal Server Error")

-- `http2d_prot_application_t`
pub data Application : Type 0 where
  unknown http10 http11 http20 : Application

unfoldable pub http_version_to_string : Application → Ret × List ℕ
http_version_to_string Application.http11 = (Ret.ok, codes "HTTP/1.1")
http_version_to_string Application.http10 = (Ret.ok, codes "HTTP/1.0")
http_version_to_string Application.http20 = (Ret.ok, codes "HTTP/2.0")
http_version_to_string Application.unknown = (Ret.error, codes "HTTP/Unknown")
