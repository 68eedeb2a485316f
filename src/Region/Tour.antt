-- ===== src/Region/Tour.antt =====
-- internal/core/region_redirect.go: one attempt to have a job served in another region. What a region
-- answers to a hop (`answer`), the clock, the id of this machine and the settings are arguments; the
-- hop's request carries the job's other fields as they are.
use Prim.Native.String.{String}
use text.Mathlib.Text.{◌==◌ as str_eq}
use aquifer.Base.{
  ℕ, ◌+◌, Bool, true, false, not, ◌&&◌, ◌||◌, Option, none, some, List, [], ◌∷◌, ◌++◌, ltb, leb,
  if◌then◌else◌, if_some,
}
use aquifer.Region.Redirect.{Gate, gate_open, trip, ordered_candidates}

pub data RedirectResult : Type 0 where
  not_applicable succeeded exhausted : RedirectResult

-- The fields of a job that a redirect reads or sets.
pub record TouringJob : Type 0 where
  pub job_id : String
  pub job_key : String
  pub origin_machine_id : String
  pub origin_region : String
  pub visited_regions : List String
  pub reroute_count : ℕ

pub record HopRequest : Type 0 where
  pub hop_origin_machine_id : String
  pub hop_origin_region : String
  pub hop_visited : List String
  pub hop_reroute_count : ℕ
  pub direct_only : Bool

-- What comes of the call of a region: no request or no answer, a stream of events, or a status.
pub data HopAnswer : Type 0 where
  unreachable : HopAnswer
  event_stream : HopAnswer
  status : ℕ → HopAnswer

pub data ProxyOutcome : Type 0 where
  relay_from : String → ProxyOutcome
  direct : String → ℕ → ProxyOutcome

unfoldable pub hop_request : TouringJob → String → Bool → HopRequest
hop_request j region direct_only = record {
  hop_origin_machine_id = j.origin_machine_id;
  hop_origin_region = j.origin_region;
  hop_visited = j.visited_regions ++ (region ∷ []);
  hop_reroute_count = j.reroute_count + 1;
  direct_only = direct_only;
}

-- The outcome, if the answer is usable, and whether the region was reached.
unfoldable pub hop_outcome : String → HopAnswer → Option ProxyOutcome × Bool
hop_outcome region unreachable = (none, false)
hop_outcome region event_stream = (some (relay_from region), true)
hop_outcome region (status code) =
    if leb 200 code && ltb code 300 then (some (direct region code), true) else (none, true)

-- A hop that was made: the region and its request.
abbrev pub Hop : Type 0
Hop = String × HopRequest

-- How far a tour came: the hops, the outcome and whether any region was reached.
pub record Tour : Type 0 where
  pub hops : List Hop
  pub outcome : Option ProxyOutcome
  pub any_reached : Bool

-- The result, the outcome, the job and the gate afterwards, the hops, and whether the job's own row
-- was deleted here.
pub record Attempt : Type 0 where
  pub result : RedirectResult
  pub served : Option ProxyOutcome
  pub job_after : TouringJob
  pub gate_after : Gate
  pub made : List Hop
  pub deleted_row : Bool

abbrev pub no_hops : RedirectResult → TouringJob → Gate → Attempt
no_hops result j g = record {
  result = result;
  served = none;
  job_after = j;
  gate_after = g;
  made = [];
  deleted_row = false;
}

unfoldable pub finished : ℕ → ℕ → TouringJob → Gate → Tour → Attempt
finished now cooldown j g t = record {
  result = if_some t.outcome exhausted (λ _. succeeded);
  served = t.outcome;
  job_after = j;
  gate_after = if_some t.outcome (if t.any_reached then trip now cooldown g else g) (λ _. g);
  made = t.hops;
  deleted_row = if_some t.outcome false (λ _. true);
}

module _ (answer : String → HopRequest → HopAnswer) where
  unfoldable pub try_hop : TouringJob → String → Bool → Option ProxyOutcome × Bool
  unfolding hop_outcome hop_request
  try_hop j region direct_only =
      hop_outcome region (answer region (hop_request j region direct_only))

  unfoldable pub with_hop : TouringJob → String → Bool → Tour → Tour
  unfolding try_hop hop_request
  with_hop j region direct_only t =
      let tried = try_hop j region direct_only in
      record {
        hops = t.hops ++ ((region, hop_request j region direct_only) ∷ []);
        outcome = tried.0;
        any_reached = t.any_reached || tried.1;
      }

  -- Phase 1: each candidate is asked for a direct success, until one has it.
  unfoldable pub direct_phase : TouringJob → List String → Tour → Tour
  unfolding with_hop
  direct_phase j [] t = t
  direct_phase j (region ∷ regions) t =
      let t' = with_hop j region true t in
      let rest = direct_phase j regions t' in if_some t'.outcome rest (λ _. t')

  -- Phase 2: if none has, the first candidate may keep the job.
  unfoldable pub tour : TouringJob → String → List String → Tour
  unfolding direct_phase with_hop
  tour j final others =
      let t =
        direct_phase j (final ∷ others)
          (record { hops = []; outcome = none; any_reached = false }) in
      if_some t.outcome (with_hop j final false t) (λ _. t)

  unfoldable pub toured : ℕ → ℕ → TouringJob → Gate → List String → Attempt
  unfolding finished tour
  toured now cooldown j g [] = no_hops exhausted j g
  toured now cooldown j g (final ∷ others) = finished now cooldown j g (tour j final others)

  -- `adapter` is this region and the live ones, if redirects are configured.
  unfoldable pub attempt_redirect :
      (String → String → ℕ)
      → ℕ
      → ℕ
      → String
      → Option (String × List String)
      → Gate
      → TouringJob
      → Attempt
  unfolding toured
  attempt_redirect score now cooldown machine adapter g j =
      if not (str_eq j.origin_machine_id "")
      then no_hops not_applicable j g
      else if_some adapter (no_hops not_applicable j g) (λ a.
        if gate_open now g
        then no_hops exhausted j g
        else toured now cooldown (record j { origin_machine_id = machine; origin_region = a.0 }) g
            (ordered_candidates score a.1 j.visited_regions a.0 j.job_key))
