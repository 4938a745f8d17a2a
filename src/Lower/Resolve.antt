-- ===== src/Lower/Resolve.antt =====
-- `InvocationResolver::resolve` of lower.rs: an invocation's program is the executable of one of its
-- tools, and its texts are parsed in the scope of their owner.
use nixfied.Prelude.{
  Bool, true, false, not, Option, none, some, List, [], ◌∷◌, Text, codes, text_eq, map, Result, ok,
  err, ◌>>=◌, ◌>>◌, ensure, lookup, if◌then◌else◌,
}
use nixfied.Manifest.Types.{Map, ClosureSpec, InvocationSpec, SecretDescriptor}
use nixfied.Template.Parse.{Owner, Scope, Piece, parse}
use nixfied.Execution.Types.{ResolvedInvocation}
use nixfied.Lower.Errors.{
  LowerError, undeclared, unresolvable, declares_path, executable_differs, unconfined_cwd,
  of_template,
}
use nixfied.Lower.Paths.{file_name, parent_or_default, relative_cwd}
use nixfied.Lower.References.{contains_key}

-- `file_name() == Some(program)`
unfoldable pub is_named : Option Text → Text → Bool
is_named none program = false
is_named (some name) program = text_eq name program

abbrev pub Selected : Type 0
Selected = Option (Text × ClosureSpec)

-- The first closure whose executable has the program's name is kept.
unfoldable pub select_closure : Text → Text → ClosureSpec → Selected → Selected
unfolding is_named file_name
select_closure program id closure (some chosen) = some chosen
select_closure program id closure none =
    if is_named (file_name closure.executable) program then some (id, closure) else none

-- The loop over the tools: their roots in order, and the selected closure.
unfoldable pub resolve_tools :
    Map ClosureSpec → Text → List Text → Selected → Result LowerError (List Text × Selected)
unfolding select_closure parent_or_default
resolve_tools closures program [] selected = ok ([], selected)
resolve_tools closures program (tool ∷ tools) selected = elim (lookup tool closures) [
  | none ↦ err (undeclared "invocation.tools" tool)
  | some closure ↦ do
    rest ← resolve_tools closures program tools (select_closure program tool closure selected)
    ok (parent_or_default closure.executable ∷ rest.0, rest.1)
]

unfoldable pub selected_or : Owner → Text → Selected → Result LowerError (Text × ClosureSpec)
selected_or owner program none = err (unresolvable owner program)
selected_or owner program (some chosen) = ok chosen

module _ (scope : Scope) (secrets : Map SecretDescriptor) where
  unfoldable pub parse_args : List Text → Result LowerError (List (List Piece))
  unfolding of_template
  parse_args [] = ok []
  parse_args (text ∷ texts) = do
    pieces ← of_template (parse scope (map (λ e. e.0) secrets) false text)
    more ← parse_args texts
    ok (pieces ∷ more)

  unfoldable pub parse_env : Map Text → Result LowerError (Map (List Piece))
  unfolding of_template
  parse_env [] = ok []
  parse_env ((key, value) ∷ rest) = do
    pieces ← of_template (parse scope (map (λ e. e.0) secrets) true value)
    more ← parse_env rest
    ok ((key, pieces) ∷ more)

unfoldable pub resolve_cwd : Owner → Text → Result LowerError Text
unfolding relative_cwd
resolve_cwd owner cwd = elim (relative_cwd cwd) [
  | none ↦ err (unconfined_cwd owner)
  | some c ↦ ok c
]

-- An invocation whose `run` is `program ∷ args`.
unfoldable pub resolve_run :
    Map ClosureSpec
    → Map SecretDescriptor
    → InvocationSpec
    → Scope
    → Text
    → List Text
    → Result LowerError (ResolvedInvocation × Text × ClosureSpec)
unfolding contains_key resolve_tools selected_or parse_args parse_env resolve_cwd
resolve_run closures secrets invocation scope program args = do
  ensure (declares_path scope.owner) (not (contains_key invocation.env (codes "PATH")))
  tools ← resolve_tools closures program invocation.tools.items none
  chosen ← selected_or scope.owner program tools.1
  ensure (executable_differs scope.owner invocation.executable chosen.1.executable)
      (text_eq chosen.1.executable invocation.executable)
  parsed ← parse_args scope secrets args
  env ← parse_env scope secrets invocation.env
  cwd ← resolve_cwd scope.owner invocation.cwd
  ok (
    record {
      executable = invocation.executable;
      args = parsed;
      env = env;
      cwd = cwd;
      stdin = invocation.stdin;
      tool_roots = tools.0;
    },
    chosen.0,
    chosen.1,
  )

unfoldable pub resolve :
    Map ClosureSpec
    → Map SecretDescriptor
    → InvocationSpec
    → Scope
    → Result LowerError (ResolvedInvocation × Text × ClosureSpec)
unfolding resolve_run
resolve closures secrets invocation scope = elim invocation.run [
  | [] ↦ err (unresolvable scope.owner [])
  | program ∷ args ↦ resolve_run closures secrets invocation scope program args
]
