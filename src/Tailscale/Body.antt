-- ===== src/Tailscale/Body.antt =====
-- hire-attestors/src/tailscale.rs: the HTTP response of tailscaled, with its chunked body.
use project_persona.Prelude.{
  ℕ, zero, suc, ◌+◌, ◌*◌, ◌-◌, ◌^◌, Bool, true, false, ◌&&◌, ◌||◌, Option, none, some, List, [],
  ◌∷◌, ◌++◌, ltb, leb, ◌==◌, if◌then◌else◌, length, take, drop, Result, ok, err,
}
use project_persona.Text.{Bytes, codes}
use project_persona.Text.Split.{split_once, starts_with, strip_prefix}
use project_persona.Text.Space.{trim, to_ascii_lowercase, contains_text, split_at, lines}
use project_persona.Agent.{AttestorError, unavailable}

-- `String::from_utf8_lossy`, and the `{:?}` of a text in a message.
pub record Render : Type 0 where
  pub from_utf8_lossy : Bytes → Bytes
  pub debug : Bytes → Bytes

abbrev is_chunked_line : Bytes → Bool
is_chunked_line l =
    starts_with (codes "transfer-encoding:") (to_ascii_lowercase l)
    && contains_text (codes "chunked") (to_ascii_lowercase l)

abbrev any_chunked : List Bytes → Bool
any_chunked [] = false
any_chunked (l ∷ rest) = is_chunked_line l || any_chunked rest

unfoldable pub header_says_chunked : Render → Bytes → Bool
header_says_chunked render headers = any_chunked (lines (render.from_utf8_lossy headers))

abbrev hex_value : ℕ → Option ℕ
hex_value c =
    if leb 48 c && leb c 57
    then some (c - 48)
    else (if leb 97 c && leb c 102
        then some (c - 87)
        else (if leb 65 c && leb c 70 then some (c - 55) else none))

abbrev usize_max : ℕ
usize_max = 2 ^ 64 - 1

abbrev push_digit : ℕ → Option ℕ → Option ℕ
push_digit n none = none
push_digit n (some v) = if leb (n * 16 + v) usize_max then some (n * 16 + v) else none

abbrev hex_digits : Option ℕ → Bytes → Option ℕ
hex_digits none s = none
hex_digits (some n) [] = some n
hex_digits (some n) (c ∷ s) = hex_digits (push_digit n (hex_value c)) s

-- `usize::from_str_radix(s, 16)`, which takes one leading `+`.
unfoldable pub from_str_radix_16 : Bytes → Option ℕ
from_str_radix_16 [] = none
from_str_radix_16 (c ∷ []) = hex_digits (some 0) (c ∷ [])
from_str_radix_16 (c ∷ d ∷ s) =
    if c == b'+' then hex_digits (some 0) (d ∷ s) else hex_digits (some 0) (c ∷ d ∷ s)

abbrev before_semicolon : Bytes → Bytes
before_semicolon s = elim (split_once b';' s) [ some (before, behind) ↦ before | none ↦ s ]

-- What stands for the length in the header of a chunk.
unfoldable pub length_text : Render → Bytes → Bytes
length_text render line = trim (before_semicolon (render.from_utf8_lossy line))

unfoldable pub chunk_length : Render → Bytes → Option ℕ
chunk_length render line = from_str_radix_16 (length_text render line)

abbrev pub crlf : Bytes
crlf = 13 ∷ 10 ∷ []

unfoldable pub skip_crlf : Bytes → Bytes
skip_crlf body = elim (strip_prefix crlf body) [ some behind ↦ behind | none ↦ body ]

-- One round of the loop of `dechunk`: it returns, or has one more chunk and goes on behind it.
pub data Round : Type 0 where
  fails : AttestorError → Round
  ends : Round
  goes_on : (chunk rest : Bytes) → Round

unfoldable pub take_chunk : ℕ → Bytes → Round
take_chunk zero rest = ends
take_chunk (suc n) rest = elim (ltb (length rest) (suc n)) [
  | true ↦ fails (unavailable (codes "chunked body: truncated chunk"))
  | false ↦ goes_on (take (suc n) rest) (skip_crlf (drop (suc n) rest))
]

unfoldable pub behind_header : Render → Bytes → Option ℕ → Bytes → Round
behind_header render line none rest =
    fails
      (unavailable (codes "chunked body: bad length " ++ render.debug (length_text render line)))
behind_header render line (some n) rest = take_chunk n rest

unfoldable pub round_on : Render → Option (Bytes × Bytes) → Round
round_on render none = fails (unavailable (codes "chunked body: no chunk header"))
round_on render (some (line, rest)) = behind_header render line (chunk_length render line) rest

unfoldable pub round : Render → Bytes → Round
round render body = round_on render (split_at crlf body)

-- The loop, with what it has put together so far; `none` when it has not returned in so many rounds.
unfoldable pub dechunk_loop : ℕ → Render → Bytes → Bytes → Option (Result AttestorError Bytes)
dechunk_loop zero render out body = none
dechunk_loop (suc rounds) render out body = elim (round render body) [
  | fails e ↦ some (err e)
  | ends ↦ some (ok out)
  | goes_on chunk rest ↦ dechunk_loop rounds render (out ++ chunk) rest
]

-- A round takes a header, so there are no more rounds than bytes.
unfoldable pub dechunk : Render → Bytes → Option (Result AttestorError Bytes)
dechunk render body = dechunk_loop (suc (length body)) render [] body
