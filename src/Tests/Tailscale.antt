-- ===== src/Tests/Tailscale.antt =====
-- A status in chunks, from a tailscaled whose JSON is read as the last key that is asked for.
use project_persona.Prelude.{◌≡◌, refl, true, some, none, ok, err, [], ◌∷◌, ◌++◌, Result}
use project_persona.Text.{Bytes, codes}
use project_persona.Text.Decimal.{show_u64}
use project_persona.Text.Split.{Lacks-by, split_once, split, starts_with, strip_prefix}
use project_persona.Text.Space.{trim, split_at, lines, to_ascii_lowercase, contains_text}
use project_persona.Agent.{AttestorError, unavailable}
use project_persona.Tailscale.Body.{
  Render, chunk_length, length_text, from_str_radix_16, dechunk, dechunk_loop, round, round_on,
  behind_header, take_chunk, skip_crlf, header_says_chunked, crlf,
}
use project_persona.Tailscale.Status.{
  Json, Socket, split_response, body_of, fetch_status, identity_of, node_name_of, trim_end_dots,
  ask, candidate_of, prove,
}
use project_persona.Tailscale.Chunks.{written, dechunk-total, dechunk-written}
use project_persona.Tailscale.Login.{Outcome, prove-login}

abbrev render : Render
render = record { from_utf8_lossy = λ s. s; debug = λ s. s }

abbrev body : Bytes
body =
    codes "3; ext"
    ++ crlf
    ++ codes "abc"
    ++ crlf
    ++ codes " 0C "
    ++ crlf
    ++ codes "defghijklmno"
    ++ crlf
    ++ codes "0"
    ++ crlf
    ++ codes "trailer"

dechunk-body : dechunk render body ≡ some (ok (codes "abcdefghijklmno"))
unfolding dechunk dechunk_loop round round_on behind_header take_chunk skip_crlf chunk_length
    length_text from_str_radix_16 trim split_at split_once strip_prefix
dechunk-body = refl

dechunk-short :
    dechunk render (codes "5" ++ crlf ++ codes "abc")
    ≡ some (err (unavailable (codes "chunked body: truncated chunk")))
unfolding dechunk dechunk_loop round round_on behind_header take_chunk skip_crlf chunk_length
    length_text from_str_radix_16 trim split_at split_once strip_prefix
dechunk-short = refl

-- The length of a chunk does not wrap.
chunk_length-wide : chunk_length render (codes "10000000000000001") ≡ none
unfolding chunk_length length_text from_str_radix_16 trim split_once
chunk_length-wide = refl

dechunk-total_example : (r : Result AttestorError Bytes) × (dechunk render body ≡ some r)
dechunk-total_example = dechunk-total render body

chunk_length-3 : chunk_length render (codes "3; ext") ≡ some 3
unfolding chunk_length length_text from_str_radix_16 trim split_once
chunk_length-3 = refl

chunk_length-0 : chunk_length render (codes "0") ≡ some 0
unfolding chunk_length length_text from_str_radix_16 trim split_once
chunk_length-0 = refl

dechunk-written_example :
    dechunk render (written ((codes "3; ext", codes "abc") ∷ []) (codes "0") (codes "trailer"))
    ≡ some (ok (codes "abc"))
dechunk-written_example =
    dechunk-written render ((codes "3; ext", codes "abc") ∷ []) (codes "0") (codes "trailer")
      ((Lacks-by 13 (codes "3; ext") refl, (λ q. cc), chunk_length-3), tt)
      (Lacks-by 13 (codes "0") refl, chunk_length-0)

abbrev json : Json Bytes
json = record {
  from_slice = λ s. ok s;
  at_key = λ v k. k;
  as_u64 = λ v. some 12;
  as_str = λ v. some (v ++ codes "..");
}

abbrev socket : Socket
socket = record {
  exists = true;
  response = ok (
      codes "HTTP/1.1 200 OK"
      ++ crlf
      ++ codes "Transfer-Encoding: Chunked"
      ++ crlf
      ++ crlf
      ++ body);
}

abbrev login : Bytes
login = codes "user/LoginName../node/DNSName"

ask-socket : ask render json socket ≡ some (ok (login, codes "DisplayName.."))
unfolding ask fetch_status split_response body_of header_says_chunked lines to_ascii_lowercase
    contains_text starts_with dechunk dechunk_loop round round_on behind_header take_chunk skip_crlf
    chunk_length length_text from_str_radix_16 trim split split_at split_once strip_prefix
    identity_of node_name_of trim_end_dots show_u64
ask-socket = refl

prove-login_example :
    Outcome login
      (codes "Ada")
      7
      []
      (ask render json socket)
      (prove render json socket 7 (candidate_of (login, codes "Ada")))
prove-login_example = prove-login render json socket login (codes "Ada") 7 []
