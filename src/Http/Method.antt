-- ===== src/Http/Method.antt =====
-- The methods of src/http.h, which are bits, and their texts in src/http.c.
pub mod RoundTrip
use spdy_test.Prelude.{ℕ, ◌^◌, List, [], ◌∷◌, ◌==◌, if◌then◌else◌}
use spdy_test.Ret.{Ret}
use spdy_test.CString.{same_nocase}
use spdy_test.Header.{codes}

-- `http2d_http_method_t`
abbrev pub http_unknown : ℕ
http_unknown = 0

-- The `entry` lines of http2d_http_method_to_string.
abbrev pub method_entries : List (ℕ × List ℕ)
method_entries =
    (2 ^ 0, codes "GET")
    ∷ (2 ^ 1, codes "POST")
    ∷ (2 ^ 2, codes "HEAD")
    ∷ (2 ^ 3, codes "PUT")
    ∷ (2 ^ 4, codes "OPTIONS")
    ∷ (2 ^ 5, codes "DELETE")
    ∷ (2 ^ 6, codes "TRACE")
    ∷ (2 ^ 7, codes "CONNECT")
    ∷ (2 ^ 8, codes "COPY")
    ∷ (2 ^ 9, codes "LOCK")
    ∷ (2 ^ 10, codes "MKCOL")
    ∷ (2 ^ 11, codes "MOVE")
    ∷ (2 ^ 12, codes "NOTIFY")
    ∷ (2 ^ 13, codes "POLL")
    ∷ (2 ^ 14, codes "PROPFIND")
    ∷ (2 ^ 15, codes "PROPPATCH")
    ∷ (2 ^ 16, codes "SEARCH")
    ∷ (2 ^ 17, codes "SUBSCRIBE")
    ∷ (2 ^ 18, codes "UNLOCK")
    ∷ (2 ^ 19, codes "UNSUBSCRIBE")
    ∷ (2 ^ 20, codes "REPORT")
    ∷ (2 ^ 21, codes "PATCH")
    ∷ (2 ^ 22, codes "VERSION_CONTROL")
    ∷ (2 ^ 23, codes "CHECKOUT")
    ∷ (2 ^ 24, codes "UNCHECKOUT")
    ∷ (2 ^ 25, codes "CHECKIN")
    ∷ (2 ^ 26, codes "UPDATE")
    ∷ (2 ^ 27, codes "LABEL")
    ∷ (2 ^ 28, codes "MKWORKSPACE")
    ∷ (2 ^ 29, codes "MKACTIVITY")
    ∷ (2 ^ 30, codes "BASELINE_CONTROL")
    ∷ (2 ^ 31, codes "MERGE")
    ∷ (2 ^ 32, codes "INVALID")
    ∷ []

unfoldable pub entry_text : List (ℕ × List ℕ) → ℕ → Ret × List ℕ
entry_text [] method = (Ret.error, codes "UNKNOWN")
entry_text ((m, str) ∷ entries) method =
    if m == method then (Ret.ok, str) else entry_text entries method

unfoldable pub method_to_string : ℕ → Ret × List ℕ
unfolding entry_text
method_to_string method = entry_text method_entries method

-- The comparisons of http2d_http_string_to_method, in their order.
abbrev pub method_names : List (List ℕ × ℕ)
method_names =
    (codes "get", 2 ^ 0)
    ∷ (codes "post", 2 ^ 1)
    ∷ (codes "head", 2 ^ 2)
    ∷ (codes "put", 2 ^ 3)
    ∷ (codes "options", 2 ^ 4)
    ∷ (codes "delete", 2 ^ 5)
    ∷ (codes "trace", 2 ^ 6)
    ∷ (codes "connect", 2 ^ 7)
    ∷ (codes "copy", 2 ^ 8)
    ∷ (codes "lock", 2 ^ 9)
    ∷ (codes "mkcol", 2 ^ 10)
    ∷ (codes "move", 2 ^ 11)
    ∷ (codes "notify", 2 ^ 12)
    ∷ (codes "poll", 2 ^ 13)
    ∷ (codes "propfind", 2 ^ 14)
    ∷ (codes "proppatch", 2 ^ 15)
    ∷ (codes "search", 2 ^ 16)
    ∷ (codes "subscribe", 2 ^ 17)
    ∷ (codes "unlock", 2 ^ 18)
    ∷ (codes "unsubscribe", 2 ^ 19)
    ∷ (codes "report", 2 ^ 20)
    ∷ (codes "patch", 2 ^ 21)
    ∷ (codes "version_control", 2 ^ 22)
    ∷ (codes "checkout", 2 ^ 23)
    ∷ (codes "uncheckout", 2 ^ 24)
    ∷ (codes "checkin", 2 ^ 25)
    ∷ (codes "update", 2 ^ 26)
    ∷ (codes "label", 2 ^ 27)
    ∷ (codes "mkworkspace", 2 ^ 28)
    ∷ (codes "mkactivity", 2 ^ 29)
    ∷ (codes "baseline_control", 2 ^ 30)
    ∷ (codes "merge", 2 ^ 31)
    ∷ (codes "invalid", 2 ^ 32)
    ∷ (codes "purge", 2 ^ 33)
    ∷ []

unfoldable pub named_method : List (List ℕ × ℕ) → List ℕ → Ret × ℕ
named_method [] string = (Ret.not_found, http_unknown)
named_method ((name, m) ∷ names) string =
    let rest = named_method names string in if same_nocase string name then (Ret.ok, m) else rest

unfoldable pub string_to_method : List ℕ → Ret × ℕ
unfolding named_method same_nocase
string_to_method string = named_method method_names string
