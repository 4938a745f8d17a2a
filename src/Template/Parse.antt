-- ===== src/Template/Parse.antt =====
-- `Template::parse` of template.rs and `Scope::endpoint`: tokens resolved against what the owner
-- declares. A message of `format!` is a constructor with the values that it shows.
use nixfied.Prelude.{
  Bool, true, false, not, Option, none, some, List, [], ◌∷◌, Text, contains, Result, ok, err, ◌>>=◌,
  if◌then◌else◌,
}
use nixfied.Template.Tokens.{
  Kind, port_of, host_of, state_dir_of, secret_of, Token, literal, reference, malformed, tokenize,
}

pub data EndpointSelector : Type 0 where
  primary : EndpointSelector
  own service_of : Text → EndpointSelector

pub data Piece : Type 0 where
  text : Text → Piece
  port_piece host_piece : EndpointSelector → Piece
  state_dir_piece : Piece
  secret_piece : Text → Piece

pub data Owner : Type 0 where
  service_owner task_owner : Text → Owner

pub record Scope : Type 0 where
  pub owner : Owner
  pub has_primary : Bool
  pub own_endpoints : List Text
  pub services : List Text

-- All have the code `ManifestAdmission`. The Boolean tells `${port}` from `${host}`.
pub data TemplateError : Type 0 where
  no_endpoint no_service : Text → Bool → TemplateError
  undeclared_endpoint : Owner → Text → TemplateError
  secret_not_allowed : TemplateError
  undeclared_secret : Text → TemplateError
  malformed_placeholder : Owner → Kind → TemplateError
  tokens_diverge : TemplateError

unfoldable pub missing_primary : Owner → Bool → TemplateError
missing_primary (service_owner id) is_port = no_endpoint id is_port
missing_primary (task_owner id) is_port = no_service id is_port

unfoldable pub endpoint : Scope → Option Text → Bool → Result TemplateError EndpointSelector
unfolding contains missing_primary
endpoint scope none is_port =
    if scope.has_primary then ok primary else err (missing_primary scope.owner is_port)
endpoint scope (some name) is_port =
    if contains scope.own_endpoints name
    then ok (own name)
    else if contains scope.services name
    then ok (service_of name)
    else err (undeclared_endpoint scope.owner name)

module _ (scope : Scope) (secrets : List Text) (allow_secret : Bool) where
  unfoldable pub parse_token : Token → Result TemplateError Piece
  unfolding endpoint contains
  parse_token (literal t) = ok (text t)
  parse_token (reference (port_of name)) = do s ← endpoint scope name true; ok (port_piece s)
  parse_token (reference (host_of name)) = do s ← endpoint scope name false; ok (host_piece s)
  parse_token (reference state_dir_of) = ok state_dir_piece
  parse_token (reference (secret_of id)) =
      if not allow_secret
      then err secret_not_allowed
      else if not (contains secrets id)
      then err (undeclared_secret id)
      else ok (secret_piece id)
  parse_token (malformed kind empty) = err (malformed_placeholder scope.owner kind)

  -- `collect` into a `Result`: the first error ends it.
  unfoldable pub parse_tokens : List Token → Result TemplateError (List Piece)
  unfolding parse_token
  parse_tokens [] = ok []
  parse_tokens (t ∷ ts) = do p ← parse_token t; ps ← parse_tokens ts; ok (p ∷ ps)

  -- `tokens_diverge` is a tokenizer that its fuel does not end.
  unfoldable pub parse : Text → Result TemplateError (List Piece)
  unfolding parse_tokens
  parse value = elim (tokenize value) [ none ↦ err tokens_diverge | some ts ↦ parse_tokens ts ]
