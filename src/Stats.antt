-- ===== src/Stats.antt =====
-- internal/server/stats/traffic.go: the traffic of each client and of the server. `clock i` is what
-- the i-th call of time.Now in an operation returns, in milliseconds. Counters are integers without
-- the range of int64.
pub mod Log
pub mod Totals
mod Tests
use inlets.Common.{
  ℕ, ◌+◌, ◌-◌, ◌*◌, ◌/◌, ◌%◌, ◌^◌, List, [], ◌∷◌, ◌++◌, Bool, true, false, Option, none, some,
  Bytes, bytes_key, ltb, codes, if◌then◌else◌,
}
use inlets.Common.Int.{ℤ, pos, ◌+ℤ◌, ltb_ℤ}
use inlets.Common.Dict
use inlets.Common.Dict.{Dict}
use inlets.Common.Text.{decimal}

abbrev pub Clock : Type 0
Clock = ℕ → ℕ

pub record TrafficStats : Type 0 where
  pub upload_bytes : ℤ
  pub download_bytes : ℤ
  pub connections : ℤ
  pub requests : ℤ
  pub start_time : ℕ
  pub end_time : Option ℕ
  pub last_update_time : ℕ

pub record TrafficStatsData : Type 0 where
  pub global : TrafficStats
  pub by_client_id : Dict Bytes TrafficStats

unfoldable pub fresh : ℕ → ℕ → TrafficStats
fresh start now = record {
  upload_bytes = pos 0;
  download_bytes = pos 0;
  connections = pos 0;
  requests = pos 0;
  start_time = start;
  end_time = none;
  last_update_time = now;
}

unfoldable pub new_traffic_stats_container : Clock → TrafficStatsData
new_traffic_stats_container clock = record { global = fresh (clock 0) (clock 1); by_client_id = [] }

unfoldable pub or_fresh : Option TrafficStats → Clock → TrafficStats
or_fresh none clock = fresh (clock 0) (clock 1)
or_fresh (some stats) clock = stats

-- the entry of a client, made where it is missing
unfoldable pub client_stats : TrafficStatsData → Bytes → Clock → TrafficStats
client_stats s id clock = or_fresh (Dict.get id s.by_client_id) clock

-- An operation on the entry that getOrCreateClientStats returns: the global one for the empty
-- client. `change` gets the times of the calls that follow.
unfoldable pub on_client :
    TrafficStatsData → Bytes → Clock → (TrafficStats → TrafficStats) → TrafficStatsData
on_client s [] clock change = record s { global = change s.global }
on_client s (b ∷ id) clock change = record s {
  by_client_id = Dict.put (b ∷ id) (change (client_stats s (b ∷ id) clock)) s.by_client_id;
}

-- the same for the global entry, which is done where there is a client
unfoldable pub also_global :
    Bytes → (TrafficStats → TrafficStats) → TrafficStatsData → TrafficStatsData
also_global [] change s = s
also_global (b ∷ id) change s = record s { global = change s.global }

unfoldable pub more_upload : ℤ → ℕ → TrafficStats → TrafficStats
more_upload bytes now t = record t {
  upload_bytes = t.upload_bytes +ℤ bytes;
  last_update_time = now;
}

unfoldable pub more_download : ℤ → ℕ → TrafficStats → TrafficStats
more_download bytes now t = record t {
  download_bytes = t.download_bytes +ℤ bytes;
  last_update_time = now;
}

unfoldable pub one_connection : ℕ → TrafficStats → TrafficStats
one_connection now t = record t { connections = t.connections +ℤ pos 1; last_update_time = now }

unfoldable pub one_request : ℕ → TrafficStats → TrafficStats
one_request now t = record t { requests = t.requests +ℤ pos 1; last_update_time = now }

unfoldable pub add_upload_bytes : TrafficStatsData → Bytes → ℤ → Clock → TrafficStatsData
add_upload_bytes s id bytes clock =
    also_global id (more_upload bytes (clock 3))
      (on_client s id clock (more_upload bytes (clock 2)))

unfoldable pub add_download_bytes : TrafficStatsData → Bytes → ℤ → Clock → TrafficStatsData
add_download_bytes s id bytes clock =
    also_global id (more_download bytes (clock 3))
      (on_client s id clock (more_download bytes (clock 2)))

unfoldable pub add_connection : TrafficStatsData → Bytes → Clock → TrafficStatsData
add_connection s id clock =
    also_global id (one_connection (clock 3)) (on_client s id clock (one_connection (clock 2)))

unfoldable pub add_request : TrafficStatsData → Bytes → Clock → TrafficStatsData
add_request s id clock =
    also_global id (one_request (clock 3)) (on_client s id clock (one_request (clock 2)))

-- What GetStats returns: all of it for the empty client, an entry, or nil.
pub data StatsAnswer : Type 0 where
  all_stats : TrafficStatsData → StatsAnswer
  one_stats : TrafficStats → StatsAnswer
  no_stats : StatsAnswer

unfoldable pub get_stats : TrafficStatsData → Bytes → StatsAnswer
get_stats s [] = all_stats s
get_stats s (b ∷ id) = elim (Dict.get (b ∷ id) s.by_client_id) [
  | some stats ↦ one_stats stats
  | none ↦ no_stats
]

unfoldable pub reset : TrafficStatsData → Bytes → Clock → TrafficStatsData
reset s [] clock = record { global = fresh (clock 0) (clock 1); by_client_id = [] }
reset s (b ∷ id) clock = record s { by_client_id = Dict.remove (b ∷ id) s.by_client_id }

unfoldable pub started : ℕ → ℕ → TrafficStats → TrafficStats
started start now t = record t { start_time = start; end_time = none; last_update_time = now }

unfoldable pub set_start_time : TrafficStatsData → Bytes → Clock → TrafficStatsData
set_start_time s id clock = on_client s id clock (started (clock 2) (clock 3))

-- the first end counts
unfoldable pub ended : ℕ → TrafficStats → TrafficStats
ended now t = elim t.end_time [
  | none ↦ record t { end_time = some now; last_update_time = now }
  | some _ ↦ t
]

unfoldable pub set_end_time : TrafficStatsData → Bytes → Clock → TrafficStatsData
set_end_time s id clock = on_client s id clock (ended (clock 2))

-- A number of bytes as it is printed: as it is, or with two decimals in units of 1024, 1024^2 or
-- 1024^3 bytes.
pub data ByteText : Type 0 where
  bytes_text : ℤ → ByteText
  kb_text : ℤ → ByteText
  mb_text : ℤ → ByteText
  gb_text : ℤ → ByteText

unfoldable pub format_bytes : ℤ → ByteText
format_bytes bytes =
    if ltb_ℤ bytes (pos 1024)
    then bytes_text bytes
    else if ltb_ℤ bytes (pos (1024 * 1024))
    then kb_text bytes
    else if ltb_ℤ bytes (pos (1024 * 1024 * 1024))
    then mb_text bytes
    else gb_text bytes

-- a number of seconds; times do not go back
unfoldable pub format_duration : ℕ → Bytes
format_duration duration =
    let hours = duration / 3600 in
    let minutes = duration % 3600 / 60 in
    let seconds = decimal (duration % 60) ++ codes "s" in
    if ltb 0 hours
    then decimal hours ++ (codes "h " ++ (decimal minutes ++ (codes "m " ++ seconds)))
    else if ltb 0 minutes
    then decimal minutes ++ (codes "m " ++ seconds)
    else seconds

-- The values that FormatStats prints.
pub record Report : Type 0 where
  pub uploaded : ByteText
  pub downloaded : ByteText
  pub total : ByteText
  pub requests : ℤ
  pub connections : ℤ
  pub duration : Bytes

unfoldable pub report : TrafficStats → ℕ → Report
report t now =
    let end : ℕ = elim t.end_time [ none ↦ now | some e ↦ e ] in
    record {
      uploaded = format_bytes t.upload_bytes;
      downloaded = format_bytes t.download_bytes;
      total = format_bytes (t.upload_bytes +ℤ t.download_bytes);
      requests = t.requests;
      connections = t.connections;
      duration = format_duration ((end - t.start_time) / 1000);
    }

-- `none` is the text "No stats available"
unfoldable pub format_stats : TrafficStatsData → Bytes → Clock → Option Report
format_stats s [] clock = some (report s.global (clock 0))
format_stats s (b ∷ id) clock = elim (Dict.get (b ∷ id) s.by_client_id) [
  | none ↦ none
  | some stats ↦ some (report stats (clock 0))
]
