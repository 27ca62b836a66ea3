-- ===== src/Probe.antt =====
-- The probe runner: crates/js-x-ray/src/probe.rs. A probe is a trait object: its own fields are part of
-- the state `S`, as the source file is; `R` and `E` are the tracer's reports and events, and its two answers are a
-- parameter.
pub mod Groups
use js_x_ray_rs.Prelude.{
  ℕ, String, Bool, true, false, not, ◌&&◌, ◌||◌, Option, none, some, ◌>>=◌, List, [], ◌∷◌, ◌++◌,
  ◌==◌, if◌then◌else◌, unwrap_or, is_some_and, eqb, length,
}
use js_x_ray_rs.Prelude.IndexMap.{contains, insert_set}
use js_x_ray_rs.Json.{Value, Node, get_str}
use js_x_ray_rs.Std.{Std}
use js_x_ray_rs.Estree.{is_call_expression, Lookup}
use js_x_ray_rs.Estree.Calls.{get_call_expression_identifier}

pub data ProbeReturn : Type 0 where
  matched continue skip break : ProbeReturn

pub data WalkAction : Type 0 where
  nothing skipping : WalkAction

-- `ProbeCtx`, less the source file: the identifier of the call and its report, of the type `R`.
pub record ProbeCtx (R : Type 0) : Type 0 where
  pub traced_identifier : Option String
  pub traced_data : Option R

pub record Probe (S R E : Type 0) : Type 0 where
  pub name : String
  pub node_types : Option (List String)
  pub initialize : S → S
  pub validate_node : Node → ProbeCtx R → S → S × Option Value
  pub main : Node → Value → ProbeCtx R → S → S × ProbeReturn
  pub finalize : S → S
  pub teardown : S → S
  pub break_on_match : Bool
  pub break_group : Option String
  pub on_tracer_event : E → S → S

-- What the runner asks of the tracer in the source file.
pub record Tracer (S R : Type 0) : Type 0 where
  pub resolve_literal_identifier : S → Lookup
  pub get_data_from_identifier : S → String → Option R

-- The identifier of a call and its report.
abbrev pub traced : {S R : Type 0} → Std → Tracer S R → Node → S → ProbeCtx R
traced std tracer node s =
    let id = get_call_expression_identifier std node (tracer.resolve_literal_identifier s) true in
    if is_call_expression node
    then record { traced_identifier = id; traced_data = id >>= tracer.get_data_from_identifier s }
    else record { traced_identifier = none; traced_data = none }

abbrev pub is_skip : ProbeReturn → Bool
is_skip skip = true
is_skip _ = false

module _ {S R E : Type 0} where
  -- `run_probe`
  unfoldable pub run_probe : Probe S R E → Node → ProbeCtx R → S → S × ProbeReturn
  run_probe probe node ctx s =
      let (s', data_) = probe.validate_node node ctx s in
      elim data_ [ none ↦ (s', continue) | some d ↦ probe.main node d ctx s' ]

  -- The probe's types are none, or empty, or have the node's.
  abbrev pub handles : Probe S R E → String → Bool
  handles probe node_ty = elim probe.node_types [
    | none ↦ true
    | some types ↦ eqb (length types) 0 || contains types node_ty
  ]

  abbrev pub in_groups : List String → Probe S R E → Bool
  in_groups groups probe = is_some_and (λ group. contains groups group) probe.break_group

  -- The probe breaks: it says so, or it matches and breaks on a match.
  abbrev pub breaks : Probe S R E → ProbeReturn → Bool
  breaks probe break = true
  breaks probe matched = probe.break_on_match
  breaks probe continue = false
  breaks probe skip = false

  module _ (node : Node) (ctx : ProbeCtx R) (node_ty : String) where
    -- One probe of the loop, after its `teardown`.
    abbrev pub ran : Probe S R E → S → S × ProbeReturn
    ran probe s = let (s', signal) = run_probe probe node ctx s in (probe.teardown s', signal)

    -- The loop over the probes, with the groups that are broken.
    unfoldable pub walk_probes : List String → List (Probe S R E) → S → S × WalkAction
    walk_probes groups [] s = (s, nothing)
    walk_probes groups (probe ∷ rest) s =
        let (s', signal) = ran probe s in
        if not (handles probe node_ty) || in_groups groups probe
        then walk_probes groups rest s
        else if is_skip signal
        then (s', skipping)
        else if breaks probe signal
        then elim probe.break_group [
          | none ↦ (s', nothing)
          | some group ↦ walk_probes (insert_set group groups) rest s'
        ]
        else walk_probes groups rest s'

  -- `ProbeRunner::walk`: the groups are cleared first.
  unfoldable pub walk : Std → Tracer S R → List (Probe S R E) → Node → S → S × WalkAction
  unfolding walk_probes run_probe insert_set is_call_expression get_call_expression_identifier
      get_str
  walk std tracer probes node s =
      walk_probes node (traced std tracer node s) (unwrap_or "" (get_str "type" node)) [] probes s

  -- `ProbeRunner::new`, `finalize`
  unfoldable pub initialize_all : List (Probe S R E) → S → S
  initialize_all [] s = s
  initialize_all (probe ∷ rest) s = initialize_all rest (probe.initialize s)

  unfoldable pub finalize_all : List (Probe S R E) → S → S
  finalize_all [] s = s
  finalize_all (probe ∷ rest) s = finalize_all rest (probe.finalize s)

  abbrev tell_all : E → List (Probe S R E) → S → S
  tell_all event [] s = s
  tell_all event (probe ∷ rest) s = tell_all event rest (probe.on_tracer_event event s)

  unfoldable pub dispatch_events : List E → List (Probe S R E) → S → S
  dispatch_events [] probes s = s
  dispatch_events (event ∷ rest) probes s = dispatch_events rest probes (tell_all event probes s)
