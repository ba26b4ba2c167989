-- ===== src/Stats/Totals.antt =====
-- The counters are the sums of what was added.
use inlets.Common.{
  ℕ, ◌≡◌, refl, ap, ◌∙◌, List, [], ◌∷◌, Bool, Option, none, some, Bytes, bytes_key, Bytes-discrete,
  ite, arith,
}
use inlets.Common.Int.{ℤ, pos}
use inlets.Common.Dict
use inlets.Common.Dict.{get-put, get-remove, get-empty}
use inlets.Stats.{
  Clock, TrafficStats, TrafficStatsData, fresh, or_fresh, new_traffic_stats_container, client_stats,
  on_client, also_global, more_upload, more_download, one_connection, one_request, add_upload_bytes,
  add_download_bytes, add_connection, add_request, reset, started, set_start_time, ended,
  set_end_time,
}
use inlets.Stats.Log.{
  Counter, uploads, downloads, connections, requests, value, Call, to_upload, to_download,
  to_connect, to_request, to_reset, to_start, to_end, step, run, counted, count, same, plus, added,
  cleared, sum_after, sum_of,
}

ite_same : {P : Type 0} (d : Dec P) (n : ℤ) → ite d n n ≡ n
ite_same (yes p) n = refl
ite_same (no p) n = refl

value-fresh : (k : Counter) (start now : ℕ) → value k (fresh start now) ≡ pos 0
unfolding fresh
value-fresh uploads start now = refl
value-fresh downloads start now = refl
value-fresh connections start now = refl
value-fresh requests start now = refl

module _ (k : Counter) where
  value-or_fresh :
      (o : Option TrafficStats) (clock : Clock) → value k (or_fresh o clock) ≡ counted k o
  unfolding or_fresh
  value-or_fresh none clock = value-fresh k (clock 0) (clock 1)
  value-or_fresh (some t) clock = refl

  -- what a change does to a counter
  abbrev pub Changes : (TrafficStats → TrafficStats) → (ℤ → ℤ) → Type 0
  Changes change f = (t : TrafficStats) → value k (change t) ≡ f (value k t)

  -- a change of one client's entry
  counted-put :
      (s : TrafficStatsData) (id j : Bytes) (clock : Clock) (change : TrafficStats → TrafficStats)
      (f : ℤ → ℤ)
      → Changes change f
      → counted k (Dict.get id (Dict.put j (change (client_stats s j clock)) s.by_client_id))
        ≡ ite
            (Bytes-discrete j id)
            (f (counted k (Dict.get id s.by_client_id)))
            (counted k (Dict.get id s.by_client_id))
  unfolding client_stats
  counted-put s id j clock change f h =
      let m = s.by_client_id in
      let o = Dict.get j m in
      let e = h (or_fresh o clock) ∙ ap f (value-or_fresh o clock) in
      elim (Bytes-discrete j id) [
        | yes p ↦ ground (arith, e, get-put j id (change (or_fresh o clock)) m)
        | no p ↦ ground (arith, get-put j id (change (or_fresh o clock)) m)
      ]

  -- one operation of the four that add
  count-also_global :
      (s : TrafficStatsData) (id j : Bytes) (clock : Clock) (b : Bool) (n : ℤ)
      (first then_ : TrafficStats → TrafficStats)
      → Changes first (plus b n)
      → Changes then_ (plus b n)
      → count k id (also_global j then_ (on_client s j clock first)) ≡ added id j b n (count k id s)
  unfolding count also_global on_client Bytes-discrete
  count-also_global s [] [] clock b n first then_ h g = h s.global
  count-also_global s [] (c ∷ j) clock b n first then_ h g = g s.global
  count-also_global s (x ∷ id) [] clock b n first then_ h g = refl
  count-also_global s (x ∷ id) (c ∷ j) clock b n first then_ h g =
      counted-put s (x ∷ id) (c ∷ j) clock first (plus b n) h

  -- SetStartTime and SetEndTime count nothing
  count-on_client :
      (s : TrafficStatsData) (id j : Bytes) (clock : Clock) (change : TrafficStats → TrafficStats)
      → Changes change (λ n. n)
      → count k id (on_client s j clock change) ≡ count k id s
  unfolding count on_client
  count-on_client s [] [] clock change h = h s.global
  count-on_client s [] (c ∷ j) clock change h = refl
  count-on_client s (x ∷ id) [] clock change h = refl
  count-on_client s (x ∷ id) (c ∷ j) clock change h =
      counted-put s (x ∷ id) (c ∷ j) clock change (λ n. n) h ∙ ite_same _ _

  count-reset :
      (s : TrafficStatsData) (id j : Bytes) (clock : Clock)
      → count k id (reset s j clock) ≡ cleared id j (count k id s)
  unfolding count reset Dict.get
  count-reset s [] [] clock = value-fresh k (clock 0) (clock 1)
  count-reset s (x ∷ id) [] clock = refl
  count-reset s [] (c ∷ j) clock = refl
  count-reset s (x ∷ id) (c ∷ j) clock = ground (arith, get-remove (c ∷ j) (x ∷ id) s.by_client_id)

value-more_upload :
    (k : Counter) (n : ℤ) (now : ℕ) → Changes k (more_upload n now) (plus (same k uploads) n)
unfolding more_upload
value-more_upload uploads n now t = refl
value-more_upload downloads n now t = refl
value-more_upload connections n now t = refl
value-more_upload requests n now t = refl

value-more_download :
    (k : Counter) (n : ℤ) (now : ℕ) → Changes k (more_download n now) (plus (same k downloads) n)
unfolding more_download
value-more_download uploads n now t = refl
value-more_download downloads n now t = refl
value-more_download connections n now t = refl
value-more_download requests n now t = refl

value-one_connection :
    (k : Counter) (now : ℕ) → Changes k (one_connection now) (plus (same k connections) (pos 1))
unfolding one_connection
value-one_connection uploads now t = refl
value-one_connection downloads now t = refl
value-one_connection connections now t = refl
value-one_connection requests now t = refl

value-one_request :
    (k : Counter) (now : ℕ) → Changes k (one_request now) (plus (same k requests) (pos 1))
unfolding one_request
value-one_request uploads now t = refl
value-one_request downloads now t = refl
value-one_request connections now t = refl
value-one_request requests now t = refl

value-started : (k : Counter) (start now : ℕ) → Changes k (started start now) (λ n. n)
unfolding started
value-started uploads start now t = refl
value-started downloads start now t = refl
value-started connections start now t = refl
value-started requests start now t = refl

value-ended : (k : Counter) (now : ℕ) → Changes k (ended now) (λ n. n)
unfolding ended
value-ended uploads now t = ground arith
value-ended downloads now t = ground arith
value-ended connections now t = ground arith
value-ended requests now t = ground arith

count-step :
    (k : Counter) (id : Bytes) (s : TrafficStatsData) (call : Call)
    → count k id (step s call) ≡ sum_after k id (count k id s) call
unfolding step sum_after add_upload_bytes add_download_bytes add_connection add_request
    set_start_time set_end_time
count-step k id s (to_upload j n clock) =
    count-also_global k s id j clock _ n _ _ (value-more_upload k n (clock 2))
      (value-more_upload k n (clock 3))
count-step k id s (to_download j n clock) =
    count-also_global k s id j clock _ n _ _ (value-more_download k n (clock 2))
      (value-more_download k n (clock 3))
count-step k id s (to_connect j clock) =
    count-also_global k s id j clock _ (pos 1) _ _ (value-one_connection k (clock 2))
      (value-one_connection k (clock 3))
count-step k id s (to_request j clock) =
    count-also_global k s id j clock _ (pos 1) _ _ (value-one_request k (clock 2))
      (value-one_request k (clock 3))
count-step k id s (to_reset j clock) = count-reset k s id j clock
count-step k id s (to_start j clock) =
    count-on_client k s id j clock _ (value-started k (clock 2) (clock 3))
count-step k id s (to_end j clock) = count-on_client k s id j clock _ (value-ended k (clock 2))

count-run :
    (k : Counter) (id : Bytes) (s : TrafficStatsData) (calls : List Call)
    → count k id (run s calls) ≡ sum_of k id (count k id s) calls
unfolding run sum_of
count-run k id s [] = refl
count-run k id s (call ∷ calls) =
    count-run k id (step s call) calls
    ∙ ap (λ (n : ℤ). sum_of k id n calls) (count-step k id s call)

count-new :
    (k : Counter) (id : Bytes) (clock : Clock)
    → count k id (new_traffic_stats_container clock) ≡ pos 0
unfolding count new_traffic_stats_container Dict.get
count-new k [] clock = value-fresh k (clock 0) (clock 1)
count-new k (b ∷ id) clock = refl

-- After any run of calls each of the four counters, of a client and of the server, is the sum over
-- the log of the calls since it was reset last: a client's of what was added for the client, the
-- server's of what was added for anyone. A client's reset leaves the server's counters and those of
-- other clients, the reset of everything ends all.
pub count-new_traffic_stats_container :
    (k : Counter) (id : Bytes) (clock : Clock) (calls : List Call)
    → count k id (run (new_traffic_stats_container clock) calls) ≡ sum_of k id (pos 0) calls
count-new_traffic_stats_container k id clock calls =
    count-run k id (new_traffic_stats_container clock) calls
    ∙ ap (λ (n : ℤ). sum_of k id n calls) (count-new k id clock)
