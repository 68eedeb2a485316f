-- ===== src/Dispatch/Broker/Slices.antt =====
-- internal/dispatch/broker.go: the map of subscribers and the phases of the streams.
use Prim.Native.String.{String}
use text.Mathlib.Text.{◌==◌ as str_eq}
use text.Mathlib.TextEquality.{eq_iff}
use aquifer.Base.{
  ℕ, ◌+◌, ◌≤◌, ◌≡◌, ◌≢◌, sym, subst, ◌∙◌, ap, false, List, [], ◌∷◌, ◌++◌, arith, by_branch,
}
use aquifer.Base.Dict.{insert, string_keys, lookup-insert}
use aquifer.Dispatch.Broker.Defs.{put_at, among, entry}
use aquifer.Dispatch.Broker.Steps.{
  Phase, unborn, leaving, left, streaming, streams_to, Apart, Streams,
}
use aquifer.Dispatch.Broker.Entries.{
  among-snoc, Apart-snoc, among-compact, Apart-compact, entry-insert, dropped, entry-dropped,
  lookup-dropped,
}
use aquifer.Dispatch.Broker.Sends.{put_at-each, same_number}

snoc_full : (n : ℕ) (ks : List ℕ) → ks ++ (n ∷ []) ≢ []
snoc_full n [] e = ground (arith, e)
snoc_full n (k ∷ ks) e = ground (arith, e)

not_unborn : (p : Phase) (job : String) → p ≡ streaming job → p ≢ unborn
not_unborn p job e u = ground (arith, e, u)

module _ (m : List (String × List ℕ)) (ph : ℕ → Phase) (n : ℕ) (v : Streams m ph n) where
  pub Streams-subscribe :
      (job : String)
      → Streams (insert job (entry job m ++ (n ∷ [])) m) (put_at n (streaming job) ph) (n + 1)
  Streams-subscribe job =
      let slice = entry job m ++ (n ∷ []) in
      let unknown : (k : String) → among n (entry k m) ≡ false =
        λ k. v.listed n k ∙ ap (streams_to k) (v.fresh n (omega arith)) in
      record {
        listed = λ i k.
            put_at-each n (streaming job) ph
              (λ i p. among i (entry k (insert job slice m)) ≡ streams_to k p)
              (ground (
                arith,
                entry-insert job k slice m,
                among-snoc n n (entry job m),
                unknown k,
                same_number n,
              ))
              (λ i miss. ground (
                arith,
                entry-insert job k slice m,
                among-snoc i n (entry job m),
                v.listed i k,
                v.listed i job,
                eq_iff job k,
              ))
              i;
        apart = λ k. subst Apart (sym (entry-insert job k slice m)) (
            by_branch Apart (str_eq job k)
              (λ hit. Apart-snoc n (entry job m) (v.apart job) (unknown job)) (λ other. v.apart k));
        nonempty = λ k found.
            ground
              (arith, lookup-insert job k slice m, snoc_full n (entry job m), v.nonempty k, found);
        fresh =
            put_at-each n (streaming job) ph (λ i p. n + 1 ≤ i → p ≡ unborn)
              (λ h. absurd (omega (arith, h))) (λ i miss h. v.fresh i (omega (arith, h)));
      }

  pub Streams-unsubscribe :
      (job : String) (i : ℕ)
      → ph i ≡ streaming job
      → Streams (dropped job i m) (put_at i leaving ph) n
  Streams-unsubscribe job i here = record {
    listed = λ k j.
        put_at-each i leaving ph (λ k p. among k (entry j (dropped job i m)) ≡ streams_to j p)
          (ground (
            arith,
            entry-dropped job j i m,
            among-compact i i (entry job m) (v.apart job),
            same_number i,
            v.listed i j,
            ap (streams_to j) here,
          ))
          (λ k miss. ground (
            arith,
            entry-dropped job j i m,
            among-compact i k (entry job m) (v.apart job),
            v.listed k j,
            v.listed k job,
            eq_iff job j,
          ))
          k;
    apart = λ j. subst Apart (sym (entry-dropped job j i m)) (
        by_branch Apart (str_eq job j) (λ hit. Apart-compact i (entry job m) (v.apart job))
          (λ other. v.apart j));
    nonempty = lookup-dropped job i m v.nonempty;
    fresh =
        put_at-each i leaving ph (λ k p. n ≤ k → p ≡ unborn)
          (λ h. absurd (not_unborn (ph i) job here (v.fresh i h))) (λ k miss. v.fresh k);
  }

  pub Streams-close : (i : ℕ) → ph i ≡ leaving → Streams m (put_at i left ph) n
  Streams-close i here = record {
    listed = λ k j.
        put_at-each i left ph (λ k p. among k (entry j m) ≡ streams_to j p)
          (v.listed i j ∙ ap (streams_to j) here) (λ k miss. v.listed k j) k;
    apart = v.apart;
    nonempty = v.nonempty;
    fresh =
        put_at-each i left ph (λ k p. n ≤ k → p ≡ unborn) (λ h. ground (arith, here, v.fresh i h))
          (λ k miss. v.fresh k);
  }
