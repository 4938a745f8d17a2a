-- ===== src/Readiness/Round.antt =====
-- `CheckingRound` and `CompletedRound` of readiness.rs. A `BTreeMap<Option<String>, _>` is its value at
-- `None` and its map of the other keys; a witness set of endpoint.rs is its map.
use nixfied.Prelude.{
  Bool, true, false, not, ◌&&◌, Option, none, some, List, [], ◌∷◌, Text, text_eq, Result, ok, err,
  ◌>>=◌, lookup, map_insert, map, if◌then◌else◌,
}
use nixfied.Manifest.Types.{Map}
use nixfied.Manifest.Errors.{is_empty}
use nixfied.Manifest.Units.{is_some}
use nixfied.Manifest.Placements.{texts_eq}

pub data ProbePhase : Type 0 where
  ready health : ProbePhase

-- Both have the code `LifecycleFailed`, but for a panic.
pub data RoundError : Type 0 where
  duplicate_credit mismatched_round panic : RoundError

-- The probes of a round, each as the key of its process.
pub record Probes : Type 0 where
  pub scalar : Option Text
  pub by_endpoint : Map Text

pub record CheckingRound (W : Type 0) : Type 0 where
  pub phase : ProbePhase
  pub initial : Option (Map W)
  pub probes : Probes

pub data RoundEvidence (W : Type 0) : Type 0 where
  endpointless : Text → RoundEvidence W
  endpoints : List (W × Text) → RoundEvidence W

pub record CompletedRound (W : Type 0) : Type 0 where
  pub phase : ProbePhase
  pub evidence : RoundEvidence W

unfoldable pub insert_probe : Option Text → Text → Probes → Probes
insert_probe none probe probes = record { scalar = some probe; by_endpoint = probes.by_endpoint }
insert_probe (some id) probe probes = record {
  scalar = probes.scalar;
  by_endpoint = map_insert id probe probes.by_endpoint;
}

unfoldable pub has_probe : Option Text → Probes → Bool
unfolding is_some
has_probe none probes = is_some probes.scalar
has_probe (some id) probes = is_some (lookup id probes.by_endpoint)

-- `BTreeMap::remove`, with what is left.
unfoldable pub remove_probe : Text → Map Text → Option (Text × Map Text)
remove_probe id [] = none
remove_probe id ((key, probe) ∷ rest) =
    let removed = remove_probe id rest in
    if text_eq key id
    then some (probe, rest)
    else elim removed [ none ↦ none | some r ↦ some (r.0, (key, probe) ∷ r.1) ]

module _ {W : Type 0} where
  unfoldable pub begin : ProbePhase → Option (Map W) → CheckingRound W
  begin phase initial = record {
    phase = phase;
    initial = initial;
    probes = record { scalar = none; by_endpoint = [] };
  }

  -- `record`: the probe is inserted, and the error tells that there was one.
  unfoldable pub record_probe :
      Option Text → Text → CheckingRound W → Result RoundError (Unit {0}) × CheckingRound W
  unfolding insert_probe has_probe
  record_probe endpoint probe round = (
    (if has_probe endpoint round.probes then err duplicate_credit else ok tt),
    record {
      phase = round.phase;
      initial = round.initial;
      probes = insert_probe endpoint probe round.probes;
    },
  )

  -- Each witness with its probe; a missing probe is a failed `expect`.
  unfoldable pub pair_probes : Map W → Map Text → Result RoundError (List (W × Text))
  unfolding remove_probe
  pair_probes [] probes = ok []
  pair_probes ((id, witness) ∷ rest) probes = elim (remove_probe id probes) [
    | none ↦ err panic
    | some r ↦ do more ← pair_probes rest r.1; ok ((witness, r.0) ∷ more)
  ]

  module _ (eq : W → W → Bool) where
    -- `CompleteWitnessSet::matches`
    unfoldable pub matches : Map W → Map W → Bool
    matches [] [] = true
    matches ((i, w) ∷ ws) ((j, v) ∷ vs) = text_eq i j && (eq w v && matches ws vs)
    matches _ _ = false

    unfoldable pub complete_endpoints :
        CheckingRound W → Map W → Map W → Result RoundError (CompletedRound W)
    unfolding matches pair_probes is_empty is_some texts_eq
    complete_endpoints round initial final_set =
        if not (is_empty initial)
          && matches initial final_set
          && texts_eq (map (λ e. e.0) round.probes.by_endpoint) (map (λ e. e.0) final_set)
          && not (is_some round.probes.scalar)
        then pair_probes final_set round.probes.by_endpoint
          >>= (λ entries. ok (record { phase = round.phase; evidence = endpoints entries }))
        else err mismatched_round

    unfoldable pub complete_scalar : CheckingRound W → Result RoundError (CompletedRound W)
    unfolding is_empty
    complete_scalar round = elim round.probes.scalar [
      | none ↦ err mismatched_round
      | some probe ↦
          if is_empty round.probes.by_endpoint
          then ok (record { phase = round.phase; evidence = endpointless probe })
          else err mismatched_round
    ]

    unfoldable pub complete :
        CheckingRound W → Option (Map W) → Result RoundError (CompletedRound W)
    unfolding complete_endpoints complete_scalar
    complete round final_set = elim round.initial [
      | none ↦ elim final_set [ none ↦ complete_scalar round | some set ↦ err mismatched_round ]
      | some initial ↦ elim final_set [
        | none ↦ err mismatched_round
        | some set ↦ complete_endpoints round initial set
      ]
    ]
