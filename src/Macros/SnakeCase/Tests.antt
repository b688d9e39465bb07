-- ===== src/Macros/SnakeCase/Tests.antt =====
-- The examples of the documentation, with the case of ASCII letters.
use Prim.Native.Char.{Char, code}
use Prim.Native.String.{[], ◌∷◌}
use queuey.Common.{◌&&◌, ◌≡◌, refl, leb, ◌==◌, if◌then◌else◌}
use queuey.Macros.SnakeCase.{Unicode, boundary, step, snake_on, snake_case}

-- Enough of `to_lowercase` for the names below.
abbrev lower_letter : Char → Char
lower_letter c =
    if code c == 83
    then "s"
    else if code c == 69
    then "e"
    else if code c == 72
    then "h"
    else if code c == 84
    then "t"
    else if code c == 80
    then "p"
    else if code c == 67
    then "c"
    else c

abbrev ascii : Unicode
ascii = record {
  is_uppercase = λ c. leb 65 (code c) && leb (code c) 90;
  is_lowercase = λ c. leb 97 (code c) && leb (code c) 122;
  to_lowercase = λ c. lower_letter c ∷ [];
}

send_emails : snake_case ascii "SendEmails" ≡ "send_emails"
unfolding snake_case snake_on step boundary
send_emails = refl

http_calls : snake_case ascii "HTTPCalls" ≡ "http_calls"
unfolding snake_case snake_on step boundary
http_calls = refl
