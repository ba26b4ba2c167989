-- ===== src/Stats/Tests.antt =====
-- The counters after concrete calls.
use inlets.Common.{◌≡◌, refl, List, [], ◌∷◌, bytes_key, Bytes-discrete, ℕ_discrete, codes}
use inlets.Common.Int.{pos, ◌+ℤ◌}
use inlets.Common.Text.{decimal, decimal_from}
use inlets.Stats.{
  Clock, new_traffic_stats_container, fresh, or_fresh, client_stats, on_client, also_global,
  more_upload, add_upload_bytes, reset, format_duration,
}
use inlets.Stats.Log.{Call, Counter, to_upload, to_reset, step, run, count, sum_after, sum_of}
use inlets.Stats.Totals.{count-new_traffic_stats_container}

abbrev noon : Clock
noon i = 5

-- a client uploads, is reset and uploads again
abbrev calls : List Call
calls =
    to_upload (codes "c") (pos 5) noon
    ∷ to_upload [] (pos 2) noon
    ∷ to_reset (codes "c") noon
    ∷ to_upload (codes "c") (pos 7) noon
    ∷ []

client_sum : sum_of Counter.uploads (codes "c") (pos 0) calls ≡ pos 7
unfolding sum_of sum_after ◌+ℤ◌ Bytes-discrete ℕ_discrete
client_sum = refl

server_sum : count Counter.uploads [] (run (new_traffic_stats_container noon) calls) ≡ pos 14
unfolding count run step add_upload_bytes also_global on_client more_upload client_stats or_fresh
    fresh reset new_traffic_stats_container ◌+ℤ◌
server_sum = refl

duration_text : format_duration 3725 ≡ codes "1h 2m 5s"
unfolding format_duration decimal decimal_from
duration_text = refl

count-new_traffic_stats_container_example :
    count Counter.uploads (codes "c") (run (new_traffic_stats_container noon) calls)
    ≡ sum_of Counter.uploads (codes "c") (pos 0) calls
count-new_traffic_stats_container_example =
    count-new_traffic_stats_container Counter.uploads (codes "c") noon calls
