-- ===== src/Template/Scoped.antt =====
-- What a parsed template promises: its pieces spell the text, and each stands in its scope.
use nixfied.Prelude.{
  ◌≡◌, ◌≢◌, refl, sym, ap, ap₂, ◌∙◌, ◌++◌, Bool, true, false, Option, none, some, List, [], ◌∷◌,
  Text, codes, contains, contains-Mem, Mem, All, ok, err, ◌>>=◌, >>=-ok, arith,
}
use nixfied.Template.Tokens.{
  port_of, host_of, state_dir_of, secret_of, Token, literal, reference, malformed,
}
use nixfied.Template.Render.{render, render_all}
use nixfied.Template.Roundtrip.{tokenize-render}
use nixfied.Template.Parse.{
  EndpointSelector, primary, own, service_of, Piece, text, port_piece, host_piece, state_dir_piece,
  secret_piece, Scope, tokens_diverge, missing_primary, endpoint, parse_token, parse_tokens, parse,
}

abbrev selector_suffix : EndpointSelector → Text
selector_suffix primary = codes "}"
selector_suffix (own name) = codes ":" ++ name ++ codes "}"
selector_suffix (service_of name) = codes ":" ++ name ++ codes "}"

-- The spelling of a piece.
abbrev pub render_piece : Piece → Text
render_piece (text t) = t
render_piece (port_piece s) = codes "${port" ++ selector_suffix s
render_piece (host_piece s) = codes "${host" ++ selector_suffix s
render_piece state_dir_piece = codes "${stateDir}"
render_piece (secret_piece id) = codes "${secret:" ++ id ++ codes "}"

abbrev pub render_pieces : List Piece → Text
render_pieces [] = []
render_pieces (p ∷ ps) = render_piece p ++ render_pieces ps

-- A service is named only where no own endpoint has the name.
abbrev pub IsSelected : Scope → EndpointSelector → Type 0
IsSelected scope primary = scope.has_primary ≡ true
IsSelected scope (own name) = Mem name scope.own_endpoints
IsSelected scope (service_of name) =
    Mem name scope.services × (contains scope.own_endpoints name ≡ false)

abbrev pub IsScoped : Scope → List Text → Bool → Piece → Type 0
IsScoped scope secrets allow_secret (text t) = Unit
IsScoped scope secrets allow_secret (port_piece s) = IsSelected scope s
IsScoped scope secrets allow_secret (host_piece s) = IsSelected scope s
IsScoped scope secrets allow_secret state_dir_piece = Unit
IsScoped scope secrets allow_secret (secret_piece id) = (allow_secret ≡ true) × Mem id secrets

endpoint-IsSelected :
    (scope : Scope) (name : Option Text) (is_port : Bool) (s : EndpointSelector)
    → endpoint scope name is_port ≡ ok s
    → IsSelected scope s
unfolding endpoint
endpoint-IsSelected scope none is_port primary h = ground arith
endpoint-IsSelected scope none is_port _ h = ground arith
endpoint-IsSelected scope (some name) is_port primary h = ground arith
endpoint-IsSelected scope (some name) is_port (own n) h =
    ground (arith, contains-Mem scope.own_endpoints name)
endpoint-IsSelected scope (some name) is_port (service_of n) h =
    ground (arith, contains-Mem scope.services name)

endpoint-suffix :
    (scope : Scope) (name : Text) (is_port : Bool) (s : EndpointSelector)
    → endpoint scope (some name) is_port ≡ ok s
    → selector_suffix s ≡ codes ":" ++ name ++ codes "}"
unfolding endpoint
endpoint-suffix scope name is_port primary h = ground arith
endpoint-suffix scope name is_port (own n) h =
    let e : n ≡ name = ground arith in ap (λ z. codes ":" ++ z ++ codes "}") e
endpoint-suffix scope name is_port (service_of n) h =
    let e : n ≡ name = ground arith in ap (λ z. codes ":" ++ z ++ codes "}") e

endpoint-primary :
    (scope : Scope) (is_port : Bool) (s : EndpointSelector)
    → endpoint scope none is_port ≡ ok s
    → selector_suffix s ≡ codes "}"
unfolding endpoint
endpoint-primary scope is_port primary h = refl
endpoint-primary scope is_port (own n) h = ground arith
endpoint-primary scope is_port (service_of n) h = ground arith

module _ (scope : Scope) (secrets : List Text) (allow_secret : Bool) where
  abbrev PieceOf : Token → Piece → Type 0
  PieceOf t p = (render_piece p ≡ render t) × IsScoped scope secrets allow_secret p

  endpoint_piece :
      (name : Option Text) (is_port : Bool) (wrap : EndpointSelector → Piece) (t : Token)
      {p : Piece}
      → ((s : EndpointSelector) → endpoint scope name is_port ≡ ok s → PieceOf t (wrap s))
      → (endpoint scope name is_port >>= λ s. ok (wrap s)) ≡ ok p
      → PieceOf t p
  endpoint_piece name is_port wrap t {p} each h =
      let (s, e, same) = >>=-ok (endpoint scope name is_port) (λ s. ok (wrap s)) h in
      let w : wrap s ≡ p = cc in rw (sym w) (each s e)

  parse_token-piece :
      (t : Token) {p : Piece} → parse_token scope secrets allow_secret t ≡ ok p → PieceOf t p
  unfolding parse_token
  parse_token-piece (literal t) {p} h = let w : text t ≡ p = cc in rw (sym w) (refl, tt)
  parse_token-piece (reference (port_of none)) h =
      endpoint_piece none true port_piece (reference (port_of none))
        (λ s e. (
          ap (λ z. codes "${port" ++ z) (endpoint-primary scope true s e),
          endpoint-IsSelected scope none true s e,
        ))
        h
  parse_token-piece (reference (port_of (some name))) h =
      endpoint_piece (some name) true port_piece (reference (port_of (some name)))
        (λ s e. (
          ap (λ z. codes "${port" ++ z) (endpoint-suffix scope name true s e),
          endpoint-IsSelected scope (some name) true s e,
        ))
        h
  parse_token-piece (reference (host_of none)) h =
      endpoint_piece none false host_piece (reference (host_of none))
        (λ s e. (
          ap (λ z. codes "${host" ++ z) (endpoint-primary scope false s e),
          endpoint-IsSelected scope none false s e,
        ))
        h
  parse_token-piece (reference (host_of (some name))) h =
      endpoint_piece (some name) false host_piece (reference (host_of (some name)))
        (λ s e. (
          ap (λ z. codes "${host" ++ z) (endpoint-suffix scope name false s e),
          endpoint-IsSelected scope (some name) false s e,
        ))
        h
  parse_token-piece (reference state_dir_of) {p} h =
      let w : state_dir_piece ≡ p = cc in rw (sym w) (refl, tt)
  parse_token-piece (reference (secret_of id)) {p} h =
      let w : secret_piece id ≡ p = ground arith in
      let a : allow_secret ≡ true = ground arith in
      let m : Mem id secrets = ground (arith, contains-Mem secrets id) in rw (sym w) (refl, (a, m))
  parse_token-piece (malformed kind empty) h = cc

  parse_tokens-pieces :
      (ts : List Token) {ps : List Piece}
      → parse_tokens scope secrets allow_secret ts ≡ ok ps
      → (render_pieces ps ≡ render_all ts) × All (IsScoped scope secrets allow_secret) ps
  unfolding parse_tokens
  parse_tokens-pieces [] {ps} h = let w : [] ≡ ps = cc in rw (sym w) (refl, tt)
  parse_tokens-pieces (t ∷ ts) {ps} h =
      let (q, e, rest) = >>=-ok (parse_token scope secrets allow_secret t) _ h in
      let (qs, f, last) = >>=-ok (parse_tokens scope secrets allow_secret ts) _ rest in
      let first = parse_token-piece t e in
      let later = parse_tokens-pieces ts f in
      let w : q ∷ qs ≡ ps = cc in rw (sym w) (ap₂ ◌++◌ first.0 later.0, (first.1, later.1))

  parse_token_ends : (t : Token) → parse_token scope secrets allow_secret t ≢ err tokens_diverge
  unfolding parse_token endpoint missing_primary
  parse_token_ends (literal t) h = cc
  parse_token_ends (reference (port_of none)) h = ground arith
  parse_token_ends (reference (port_of (some name))) h = ground arith
  parse_token_ends (reference (host_of none)) h = ground arith
  parse_token_ends (reference (host_of (some name))) h = ground arith
  parse_token_ends (reference state_dir_of) h = cc
  parse_token_ends (reference (secret_of id)) h = ground arith
  parse_token_ends (malformed kind empty) h = cc

  parse_tokens_ends :
      (ts : List Token) → parse_tokens scope secrets allow_secret ts ≢ err tokens_diverge
  unfolding parse_tokens
  parse_tokens_ends [] h = cc
  parse_tokens_ends (t ∷ ts) h = ground (arith, parse_token_ends t, parse_tokens_ends ts)

  -- The pieces of a parsed template spell the authored text, and each stands in its scope: a
  -- primary endpoint only where there is one, a named endpoint only if it is an own endpoint or,
  -- failing that, a visible service, a secret only where secrets are allowed and if it is declared.
  -- A text is refused for such a reason only, never because the tokenizer does not end.
  pub parse-IsScoped :
      (value : Text)
      → (parse scope secrets allow_secret value ≢ err tokens_diverge)
        × ((pieces : List Piece)
            → parse scope secrets allow_secret value ≡ ok pieces
            → (render_pieces pieces ≡ value) × All (IsScoped scope secrets allow_secret) pieces)
  unfolding parse
  parse-IsScoped value =
      let (ts, e, spelled) = tokenize-render value in
      rw (parse, e)
        (parse_tokens_ends ts, λ pieces h. let r = parse_tokens-pieces ts h in (r.0 ∙ spelled, r.1))
