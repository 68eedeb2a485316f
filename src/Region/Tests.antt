-- ===== src/Region/Tests.antt =====
-- internal/region/redirect.go and internal/core/region_redirect.go at concrete inputs.
use Prim.Native.String.{String}
use text.Mathlib.Text.{◌==◌ as str_eq}
use aquifer.Base.{
  ℕ, ◌≡◌, refl, true, false, not, ◌&&◌, ◌||◌, none, some, List, [], ◌∷◌, if◌then◌else◌,
}
use aquifer.Region.Redirect.{
  Gate, gate_open, trip, contains, better, pick_from, pick, eligible, others, led_by_pick,
  ordered_candidates,
}
use aquifer.Region.Candidates.{Leads, ordered_candidates-lem}
use aquifer.Region.Tour.{
  TouringJob, HopRequest, HopAnswer, unreachable, event_stream, status, relay_from, hop_request,
  hop_outcome, try_hop, with_hop, direct_phase, tour, finished, toured, attempt_redirect,
}
use aquifer.Region.Outcomes.{Toured, first_hops}
use aquifer.Region.Attempts.{with_origin, attempt_redirect-Toured}

-- London is preferred for every key.
abbrev prefers_london : String → String → ℕ
prefers_london region key = if str_eq region "lhr" then 9 else 4

abbrev live_regions : List String
live_regions = "ams" ∷ "cdg" ∷ "iad" ∷ "lhr" ∷ []

abbrev fresh : TouringJob
fresh = record {
  job_id = "job-1";
  job_key = "order-7";
  origin_machine_id = "";
  origin_region = "";
  visited_regions = "cdg" ∷ [];
  reroute_count = 0;
}

abbrev untripped : Gate
untripped = record { until = none }

-- No region can serve the job at once, Amsterdam is away and London keeps what it may keep.
abbrev crowded : String → HopRequest → HopAnswer
crowded region h =
    if str_eq region "ams" then unreachable else if h.direct_only then status 503 else event_stream

ordered_candidates-lem_example :
    let cs = ordered_candidates prefers_london live_regions ("cdg" ∷ []) "iad" "order-7" in
    ((r : String)
      → contains r cs
        ≡ (contains r live_regions && not (str_eq r "iad" || contains r ("cdg" ∷ []))))
    × Leads (λ c. prefers_london c "order-7") cs
ordered_candidates-lem_example =
    ordered_candidates-lem prefers_london live_regions ("cdg" ∷ []) "iad" "order-7"

london_first :
    ordered_candidates prefers_london live_regions ("cdg" ∷ []) "iad" "order-7" ≡ "lhr" ∷ "ams" ∷ []
unfolding ordered_candidates led_by_pick eligible others pick pick_from better
london_first = refl

gate_lets_through : gate_open 50 untripped ≡ false
unfolding gate_open
gate_lets_through = refl

attempt_redirect-Toured_example :
    Toured crowded (with_origin "m-1" "iad" fresh) 50 30 untripped "lhr" ("ams" ∷ []) (
      attempt_redirect crowded prefers_london 50 30 "m-1"
        (some ("iad", live_regions))
        untripped
        fresh)
attempt_redirect-Toured_example =
    attempt_redirect-Toured crowded prefers_london 50 30 "m-1" "iad" live_regions untripped fresh
      "lhr" ("ams" ∷ []) refl gate_lets_through london_first

kept_by_london :
    let a =
      attempt_redirect crowded prefers_london 50 30 "m-1"
        (some ("iad", live_regions))
        untripped
        fresh in
    (a.served ≡ some (relay_from "lhr"))
    × (a.made ≡ first_hops crowded (with_origin "m-1" "iad" fresh) "lhr" ("ams" ∷ []))
    × (a.deleted_row ≡ true)
    × (a.gate_after ≡ untripped)
unfolding attempt_redirect toured tour direct_phase with_hop try_hop hop_outcome hop_request
    finished gate_open ordered_candidates led_by_pick eligible others pick pick_from better
kept_by_london = (refl, refl, refl, refl)

-- The same with London refusing too: the gate is closed for the cooldown.
gate_trips :
    (attempt_redirect
      (λ region h. if str_eq region "ams" then unreachable else status 429)
      prefers_london
      50
      30
      "m-1"
      (some ("iad", live_regions))
      untripped
      fresh).gate_after
    ≡ record { until = some 80 }
unfolding attempt_redirect toured tour direct_phase with_hop try_hop hop_outcome hop_request
    finished gate_open trip ordered_candidates led_by_pick eligible others pick pick_from better
gate_trips = refl
