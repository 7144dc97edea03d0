-- ===== src/Hint/Strict.antt =====
-- Of hire-core/src/hint.rs: what the parser of the tag accepts.
use mathlib.Core.List.{Permᴰ}
use mathlib.Core.List.Permᴰ
use project_persona.Prelude.{◌≡◌, ◌↔◌, List, ok, >>=-eq-ok}
use project_persona.Text.{Bytes}
use project_persona.Text.Split.{split, non_empty}
use project_persona.Hint.{SvidHint, Field, unseen, parse, read_params, finish}
use project_persona.Hint.Fields.{
  ReadAs, fields, put_all, put_all-Permᴰ, put_all-fields, put_all-finish, read_params-fields,
  fields-read_params,
}

abbrev pub params : Bytes → List Bytes
params s = non_empty (split b'&' s)

parse_sound :
    (s : Bytes) (h : SvidHint)
    → parse s ≡ ok h
    → (fs : List Field) × ReadAs (params s) fs × Permᴰ fs (fields h)
unfolding parse
parse_sound s h e =
    let (seen, loop, done) = >>=-eq-ok (read_params unseen (params s)) finish e in
    let (fs, reads, all) = read_params-fields (params s) unseen loop in
    (fs, reads, put_all-finish fs all done)

parse_complete :
    (s : Bytes) (h : SvidHint) (fs : List Field)
    → ReadAs (params s) fs
    → Permᴰ fs (fields h)
    → parse s ≡ ok h
unfolding parse
parse_complete s h fs reads p =
    let (t, all, done) = >>=-eq-ok (put_all unseen (fields h)) finish (put_all-fields h) in
    rw (fields-read_params (params s) fs unseen reads, put_all-Permᴰ (Permᴰ.symm p) unseen all) done

-- A tag parses as `h` exactly when its non-empty parameters read, one by one, as the four fields
-- of `h` in some order: so each key stands exactly once, no other key stands, every value is in
-- its vocabulary, and the order does not matter.
pub parse-fields_iff :
    (s : Bytes) (h : SvidHint)
    → (parse s ≡ ok h) ↔ ((fs : List Field) × ReadAs (params s) fs × Permᴰ fs (fields h))
parse-fields_iff s h = (parse_sound s h, λ w. parse_complete s h w.0 w.1 w.2)
