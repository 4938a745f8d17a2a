-- ===== src/Template/Tests.antt =====
-- The shared grammar vectors of tests/fixtures/invocation-templates.json, and the witnesses.
use nixfied.Prelude.{
  ◌≡◌, ◌≢◌, refl, true, false, none, some, List, [], ◌∷◌, Text, codes, text_eq, any, starts_with,
  strip_prefix, find_text, slice, contains, ok, err, All,
}
use nixfied.Template.Tokens.{
  port, port_of, host_of, state_dir_of, secret_of, Token, literal, reference, malformed, tokenize,
}
use nixfied.Template.Parse.{
  Scope, task_owner, Piece, parse, tokens_diverge, port_piece, secret_piece, service_of, text,
}
use nixfied.Template.Render.{render_all}
use nixfied.Template.Roundtrip.{tokenize-render}
use nixfied.Template.Scoped.{parse-IsScoped, render_pieces, IsScoped}

abbrev nested : Text
nested = codes "${port:${secret:token}}"

nested_tokens :
    tokenize nested
    ≡ some (
        malformed port false
        ∷ literal (codes "port:")
        ∷ reference (secret_of (codes "token"))
        ∷ literal (codes "}")
        ∷ [])
unfolding tokenize text_eq any starts_with strip_prefix find_text slice
nested_tokens = refl

plain_tokens :
    tokenize (codes "${port}:${host}/${stateDir}${HOME")
    ≡ some (
        reference (port_of none)
        ∷ literal (codes ":")
        ∷ reference (host_of none)
        ∷ literal (codes "/")
        ∷ reference state_dir_of
        ∷ literal (codes "${HOME")
        ∷ [])
unfolding tokenize text_eq any starts_with strip_prefix find_text slice
plain_tokens = refl

tokenize-render_example :
    (tokens : List Token) × (tokenize nested ≡ some tokens) × (render_all tokens ≡ nested)
tokenize-render_example = tokenize-render nested

abbrev scope : Scope
scope = record {
  owner = task_owner (codes "t");
  has_primary = false;
  own_endpoints = [];
  services = codes "db" ∷ [];
}

abbrev secrets : List Text
secrets = codes "token" ∷ []

abbrev url : Text
url = codes "db=${port:db}&k=${secret:token}"

url_pieces :
    parse scope secrets true url
    ≡ ok (
        text (codes "db=")
        ∷ port_piece (service_of (codes "db"))
        ∷ text (codes "&k=")
        ∷ secret_piece (codes "token")
        ∷ [])
unfolding parse contains tokenize text_eq any starts_with strip_prefix find_text slice
url_pieces = refl

parse-IsScoped_example :
    (parse scope secrets true url ≢ err tokens_diverge)
    × ((pieces : List Piece)
        → parse scope secrets true url ≡ ok pieces
        → (render_pieces pieces ≡ url) × All (IsScoped scope secrets true) pieces)
parse-IsScoped_example = parse-IsScoped scope secrets true url
