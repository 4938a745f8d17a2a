-- ===== src/Lower/Resolved.antt =====
-- What `InvocationResolver::resolve` of lower.rs promises of an invocation that it accepts.
use nixfied.Prelude.{
  ◌≡◌, ◌⊎◌, refl, sym, ap, ◌∙◌, inl, inr, Bool, true, false, not, Option, none, some, List, [], ◌∷◌,
  ◌++◌, Text, codes, text_eq, text_eq→≡, map, Result, ok, err, ok_injective, >>=-ok, >>-ok, ensure,
  ensure-ok, lookup, All, Bool-cases, Option-cases,
}
use nixfied.Manifest.Types.{Map, ClosureSpec, InvocationSpec, SecretDescriptor}
use nixfied.Template.Parse.{TemplateError, Scope, Owner, Piece, parse}
use nixfied.Execution.Types.{ResolvedInvocation}
use nixfied.Lower.Errors.{declares_path, executable_differs, of_template}
use nixfied.Lower.Paths.{file_name, parent_or_default, relative_cwd}
use nixfied.Lower.Confined.{IsConfined, relative_cwd-IsConfined}
use nixfied.Lower.References.{contains_key}
use nixfied.Lower.Resolve.{
  is_named, Selected, select_closure, resolve_tools, selected_or, parse_args, parse_env,
  resolve_cwd, resolve_run, resolve,
}

-- The program is the executable of the first tool that has its name.
abbrev IsFirst : Map ClosureSpec → Text → List Text → Text × ClosureSpec → Type 0
IsFirst closures program tools chosen =
    (front : List Text) × (back : List Text) × (tools ≡ front ++ chosen.0 ∷ back)
    × (lookup chosen.0 closures ≡ some chosen.1)
    × (file_name chosen.1.executable ≡ some program)
    × All
        (λ tool.
          (c : ClosureSpec) × (lookup tool closures ≡ some c)
          × (is_named (file_name c.executable) program ≡ false))
        front

-- The tools' directories, in order.
abbrev AreRoots : Map ClosureSpec → List Text → List Text → Type 0
AreRoots closures [] roots = roots ≡ []
AreRoots closures (tool ∷ tools) roots =
    (c : ClosureSpec) × (rest : List Text) × (lookup tool closures ≡ some c)
    × (roots ≡ parent_or_default c.executable ∷ rest)
    × AreRoots closures tools rest

is_named-some :
    (name : Option Text) (program : Text) → is_named name program ≡ true → name ≡ some program
unfolding is_named
is_named-some none program h = cc
is_named-some (some n) program h = ap some (text_eq→≡ n program h)

resolve_tools-kept :
    (closures : Map ClosureSpec) (program : Text) (tools : List Text) (chosen : Text × ClosureSpec)
    {r : List Text × Selected}
    → resolve_tools closures program tools (some chosen) ≡ ok r
    → (r.1 ≡ some chosen) × AreRoots closures tools r.0
unfolding resolve_tools select_closure
resolve_tools-kept closures program [] chosen {r} h =
    let same : ◌≡◌ {A = List Text × Selected} ([], some chosen) r = cc in
    (
      sym (ap (λ (p : List Text × Selected). p.1) same),
      sym (ap (λ (p : List Text × Selected). p.0) same),
    )
resolve_tools-kept closures program (tool ∷ tools) chosen {r} h =
    elim (Option-cases (lookup tool closures)) [
      | inl e ↦ cc (rw (resolve_tools, e) at h)
      | inr (c, e) ↦
          let (rest, f, last) =
            >>=-ok (resolve_tools closures program tools (some chosen)) _
              (rw (resolve_tools, e) at h) in
          let (kept, roots) = resolve_tools-kept closures program tools chosen f in
          let same : ◌≡◌ {A = List Text × Selected}
              (parent_or_default c.executable ∷ rest.0, rest.1) r =
            cc in
          (
            sym (ap (λ (p : List Text × Selected). p.1) same) ∙ kept,
            (c, rest.0, e, sym (ap (λ (p : List Text × Selected). p.0) same), roots),
          )
    ]

resolve_tools-IsFirst :
    (closures : Map ClosureSpec) (program : Text) (tools : List Text) {r : List Text × Selected}
    (chosen : Text × ClosureSpec)
    → resolve_tools closures program tools none ≡ ok r
    → r.1 ≡ some chosen
    → IsFirst closures program tools chosen × AreRoots closures tools r.0
unfolding resolve_tools select_closure
resolve_tools-IsFirst closures program [] {r} chosen h s =
    let same : ◌≡◌ {A = List Text × Selected} ([], none) r = cc in
    let empty : r.1 ≡ none = sym (ap (λ (p : List Text × Selected). p.1) same) in cc
resolve_tools-IsFirst closures program (tool ∷ tools) {r} chosen h s =
    elim (Option-cases (lookup tool closures)) [
      | inl e ↦ cc (rw (resolve_tools, e) at h)
      | inr (c, e) ↦
          let (rest, f, last) =
            >>=-ok (resolve_tools closures program tools (select_closure program tool c none)) _
              (rw (resolve_tools, e) at h) in
          let same : ◌≡◌ {A = List Text × Selected}
              (parent_or_default c.executable ∷ rest.0, rest.1) r =
            cc in
          let shape : r.0 ≡ parent_or_default c.executable ∷ rest.0 =
            sym (ap (λ (p : List Text × Selected). p.0) same) in
          let picked : rest.1 ≡ some chosen = ap (λ (p : List Text × Selected). p.1) same ∙ s in
          elim (Bool-cases (is_named (file_name c.executable) program)) [
            | inl t ↦
                let here : resolve_tools closures program tools (some (tool, c)) ≡ ok rest =
                  rw (select_closure, t) at f in
                let (kept, roots) = resolve_tools-kept closures program tools (tool, c) here in
                let one : ◌≡◌ {A = Text × ClosureSpec} (tool, c) chosen = cc in
                (
                  first_of one
                      ([], tools, refl, e, is_named-some (file_name c.executable) program t, tt),
                  (c, rest.0, e, shape, roots),
                )
            | inr n ↦
                let there : resolve_tools closures program tools none ≡ ok rest =
                  rw (select_closure, n) at f in
                let (first, roots) =
                  resolve_tools-IsFirst closures program tools chosen there picked in
                let (front, back, split, found, named, before) = first in
                (
                  (tool ∷ front, back, ap (λ l. tool ∷ l) split, found, named, ((c, e, n), before)),
                  (c, rest.0, e, shape, roots),
                )
          ]
    ]
  where
    first_of :
        {a b : Text × ClosureSpec}
        → a ≡ b
        → IsFirst closures program (tool ∷ tools) a
        → IsFirst closures program (tool ∷ tools) b
    first_of e k = rw e at k

-- Each text was parsed in the scope.
abbrev pub AreParsed : Scope → Map SecretDescriptor → List Text → List (List Piece) → Type 0
AreParsed scope secrets [] parsed = parsed ≡ []
AreParsed scope secrets (text ∷ texts) parsed =
    (pieces : List Piece) × (rest : List (List Piece)) × (parse scope (map (λ e. e.0) secrets) false
        text
      ≡ ok pieces)
    × (parsed ≡ pieces ∷ rest)
    × AreParsed scope secrets texts rest

-- Each value was parsed in the scope, where it may name secrets, and keeps its key.
abbrev pub AreValues : Scope → Map SecretDescriptor → Map Text → Map (List Piece) → Type 0
AreValues scope secrets [] parsed = parsed ≡ []
AreValues scope secrets ((key, value) ∷ env) parsed =
    (pieces : List Piece) × (rest : Map (List Piece)) × (parse scope (map (λ e. e.0) secrets) true
        value
      ≡ ok pieces)
    × (parsed ≡ (key, pieces) ∷ rest)
    × AreValues scope secrets env rest

-- The invocation runs the executable that it declares, which is that of the first of its tools that
-- has the program's name, with the tools' directories as roots, in the working directory that it
-- declares, which is confined, and sets no `PATH`. The texts behind the program are its arguments.
pub record IsResolved (closures : Map ClosureSpec) (secrets : Map SecretDescriptor)
    (invocation : InvocationSpec) (scope : Scope) (r : ResolvedInvocation × Text × ClosureSpec)
    : Type 0 where
  pub program : Text
  pub args : List Text
  pub run : invocation.run ≡ program ∷ args
  pub first : IsFirst closures program invocation.tools.items (r.1, r.2)
  pub declared : r.0.executable ≡ invocation.executable
  pub chosen : r.0.executable ≡ r.2.executable
  pub roots : AreRoots closures invocation.tools.items r.0.tool_roots
  pub parsed : AreParsed scope secrets args r.0.args
  pub values : AreValues scope secrets invocation.env r.0.env
  pub cwd : r.0.cwd ≡ invocation.cwd
  pub confined : IsConfined r.0.cwd
  pub stdin : r.0.stdin ≡ invocation.stdin
  pub no_path : contains_key invocation.env (codes "PATH") ≡ false

of_template-ok : {A : Type 0} (r : Result TemplateError A) {a : A} → of_template r ≡ ok a → r ≡ ok a
unfolding of_template
of_template-ok (ok a) h = ap ok (ok_injective h)
of_template-ok (err e) h = cc

parse_args-AreParsed :
    (scope : Scope) (secrets : Map SecretDescriptor) (texts : List Text)
    {parsed : List (List Piece)}
    → parse_args scope secrets texts ≡ ok parsed
    → AreParsed scope secrets texts parsed
unfolding parse_args
parse_args-AreParsed scope secrets [] h = sym (ok_injective h)
parse_args-AreParsed scope secrets (text ∷ texts) h =
    let (pieces, e, h1) =
      >>=-ok (of_template (parse scope (map (λ e. e.0) secrets) false text)) _ h in
    let (rest, f, last) = >>=-ok (parse_args scope secrets texts) _ h1 in
    (
      pieces,
      rest,
      of_template-ok _ e,
      sym (ok_injective last),
      parse_args-AreParsed scope secrets texts f,
    )

parse_env-AreValues :
    (scope : Scope) (secrets : Map SecretDescriptor) (env : Map Text) {parsed : Map (List Piece)}
    → parse_env scope secrets env ≡ ok parsed
    → AreValues scope secrets env parsed
unfolding parse_env
parse_env-AreValues scope secrets [] h = sym (ok_injective h)
parse_env-AreValues scope secrets ((key, value) ∷ env) h =
    let (pieces, e, h1) =
      >>=-ok (of_template (parse scope (map (λ e. e.0) secrets) true value)) _ h in
    let (rest, f, last) = >>=-ok (parse_env scope secrets env) _ h1 in
    (
      pieces,
      rest,
      of_template-ok _ e,
      sym (ok_injective last),
      parse_env-AreValues scope secrets env f,
    )

not-true : (b : Bool) → not b ≡ true → b ≡ false
not-true false h = refl
not-true true h = cc

selected_or-ok :
    (owner : Owner) (program : Text) (s : Selected) {chosen : Text × ClosureSpec}
    → selected_or owner program s ≡ ok chosen
    → s ≡ some chosen
unfolding selected_or
selected_or-ok owner program none h = cc
selected_or-ok owner program (some c) h = cc

resolve_cwd-ok :
    (owner : Owner) (cwd : Text) {c : Text}
    → resolve_cwd owner cwd ≡ ok c
    → relative_cwd cwd ≡ some c
unfolding resolve_cwd
resolve_cwd-ok owner cwd h = elim (Option-cases (relative_cwd cwd)) [
  | inl e ↦ cc (rw (resolve_cwd, e) at h)
  | inr (d, e) ↦ cc (rw (resolve_cwd, e) at h)
]

run_cases : (run : List Text) → (run ≡ []) ⊎ ((p : Text) × (ps : List Text) × (run ≡ p ∷ ps))
run_cases [] = inl refl
run_cases (p ∷ ps) = inr (p, ps, refl)

module _ (closures : Map ClosureSpec) (secrets : Map SecretDescriptor) (invocation : InvocationSpec)
    (scope : Scope) where
  resolve_run-IsResolved :
      (program : Text) (args : List Text) (r : ResolvedInvocation × Text × ClosureSpec)
      → invocation.run ≡ program ∷ args
      → resolve_run closures secrets invocation scope program args ≡ ok r
      → IsResolved closures secrets invocation scope r
  unfolding resolve_run
  resolve_run-IsResolved program args r run h =
      let (no_path, h1) =
        >>-ok
          (ensure (declares_path scope.owner) (not (contains_key invocation.env (codes "PATH")))) _
          h in
      let (tools, e1, h2) =
        >>=-ok (resolve_tools closures program invocation.tools.items none) _ h1 in
      let (chosen, e2, h3) = >>=-ok (selected_or scope.owner program tools.1) _ h2 in
      let (same, h4) =
        >>-ok
          (ensure (executable_differs scope.owner invocation.executable chosen.1.executable)
            (text_eq chosen.1.executable invocation.executable))
          _ h3 in
      let (parsed, e3, h5) = >>=-ok (parse_args scope secrets args) _ h4 in
      let (env, e4, h6) = >>=-ok (parse_env scope secrets invocation.env) _ h5 in
      let (cwd, e5, last) = >>=-ok (resolve_cwd scope.owner invocation.cwd) _ h6 in
      let (first, roots) =
        resolve_tools-IsFirst closures program invocation.tools.items chosen e1
          (selected_or-ok scope.owner program tools.1 e2) in
      let (same_cwd, confined) =
        relative_cwd-IsConfined invocation.cwd (resolve_cwd-ok scope.owner invocation.cwd e5) in
      let made : ResolvedInvocation = record {
        executable = invocation.executable;
        args = parsed;
        env = env;
        cwd = cwd;
        stdin = invocation.stdin;
        tool_roots = tools.0;
      } in
      let whole : ◌≡◌ {A = ResolvedInvocation × Text × ClosureSpec} (made, chosen.0, chosen.1) r =
        ok_injective last in
      let resolved : IsResolved closures secrets invocation scope (made, chosen.0, chosen.1) =
        record {
          program = program;
          args = args;
          run = run;
          first = first;
          declared = refl;
          chosen = sym (text_eq→≡ chosen.1.executable invocation.executable (ensure-ok _ _ same));
          roots = roots;
          parsed = parse_args-AreParsed scope secrets args e3;
          values = parse_env-AreValues scope secrets invocation.env e4;
          cwd = same_cwd;
          confined = confined;
          stdin = refl;
          no_path = not-true (contains_key invocation.env (codes "PATH")) (ensure-ok _ _ no_path);
        } in
      rw whole at resolved

  -- An accepted invocation runs the executable that it declares, and this is the executable of the
  -- first of its tools that has the program's name. The tools' parent directories are the roots, in
  -- order. The arguments are the texts behind the program and the environment has the declared keys,
  -- all parsed in the scope, where only environment values may name secrets; no key is `PATH`. The
  -- working directory is the declared one: names without a slash or a NUL joined by slashes, the
  -- first not empty and none of them `..`. The standard input is the declared one.
  pub resolve-IsResolved :
      (r : ResolvedInvocation × Text × ClosureSpec)
      → resolve closures secrets invocation scope ≡ ok r
      → IsResolved closures secrets invocation scope r
  unfolding resolve
  resolve-IsResolved r h = elim (run_cases invocation.run) [
    | inl e ↦ cc (rw e at h)
    | inr (program, args, e) ↦ resolve_run-IsResolved program args r e (rw e at h)
  ]
