-- ===== src/Tests/SpiffeId.antt =====
-- hire-core/src/spiffe_id.rs at the inputs of its tests.
use project_persona.Prelude.{◌≡◌, ◌↔◌, ◌⊎◌, refl, some, ◌++◌, ok, err}
use project_persona.Text.{Bytes, codes, same}
use project_persona.Text.Split.{Lacks, split_once, strip_prefix}
use project_persona.SpiffeId.{
  SpiffeId, org_oidc, unknown_trust_domain, illegal_trust_domain, is_domain_byte, all_domain_bytes,
  is_empty, labelled, named_domain, parse_domain, provenance, parse, parse_halves, uri,
}
use project_persona.SpiffeId.Uri.{IsNameable, parse_iff}
use project_persona.SpiffeId.Provenance.{provenance_iff}

abbrev mark : SpiffeId
mark = record {
  trust_domain = org_oidc (codes "piv.acme.example");
  path = codes "user/mark/via/piv";
}

mark-IsNameable : IsNameable mark
unfolding is_empty all_domain_bytes is_domain_byte
mark-IsNameable = ((refl, refl), refl)

parse_iff_example : (parse (uri mark) ≡ ok mark) ↔ ((uri mark ≡ uri mark) × IsNameable mark)
parse_iff_example = parse_iff (uri mark) mark

mark_read_back : parse (uri mark) ≡ ok mark
mark_read_back = (parse_iff (uri mark) mark).1 (refl, mark-IsNameable)

refused_domains :
    (parse_domain (codes "personalx.example")
      ≡ err (unknown_trust_domain (codes "personalx.example")))
    × (parse_domain (codes "oidc.") ≡ err (unknown_trust_domain (codes "oidc.")))
    × (parse_domain (codes "oidc.a/b") ≡ err (illegal_trust_domain (codes "oidc.a/b")))
unfolding parse_domain is_empty all_domain_bytes is_domain_byte named_domain labelled same
    split_once
refused_domains = (refl, refl, refl)

-- The first is a URI with an unknown authority.
refused_uri :
    parse (codes "spiffe://example.com/user/mark")
    ≡ err (unknown_trust_domain (codes "example.com"))
unfolding parse parse_halves strip_prefix split_once parse_domain is_empty all_domain_bytes
    is_domain_byte named_domain labelled same
refused_uri = refl

provenance_iff_example : (provenance mark ≡ some (codes "piv")) ↔ (
    Lacks b'/' (codes "piv")
    × ((mark.path ≡ codes "via/" ++ codes "piv")
        ⊎ ((front : Bytes) × (mark.path ≡ front ++ (codes "/via/" ++ codes "piv")))))
provenance_iff_example = provenance_iff mark (codes "piv")
