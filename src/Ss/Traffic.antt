-- ===== src/Ss/Traffic.antt =====
-- `trafficStore` of internal/ss/service.go. Every method runs under the store's mutex. The counters
-- are int64: their 64-bit patterns are kept, and addition wraps. Go ranges over a map in no fixed
-- order; here a report has the order of the entries.
pub mod Conservation
use small_x.Base.{
  ℤ, ℕ, ◌+◌, ◌%◌, List, [], ◌∷◌, Bool, ◌&&◌, Option, none, some, nat_eq, if◌then◌else◌, is_none,
  int_keys, word64,
}
use small_x.Base.Map.{lookup, insert}
use small_x.Model.{TrafficReport}

pub record TrafficValue : Type 0 where
  pub up : ℕ
  pub down : ℕ

abbrev pub no_traffic : TrafficValue
no_traffic = record { up = 0; down = 0 }

abbrev pub TrafficStore : Type 0
TrafficStore = List (ℤ × TrafficValue)

abbrev pub or_no_traffic : Option TrafficValue → TrafficValue
or_no_traffic none = no_traffic
or_no_traffic (some v) = v

-- The store after `ensure`; the item that it returns is the entry of the user.
unfoldable pub ensure : TrafficStore → ℤ → TrafficStore
ensure t id = if is_none (lookup id t) then insert id no_traffic t else t

unfoldable pub item_of : TrafficStore → ℤ → TrafficValue
item_of t id = or_no_traffic (lookup id t)

-- `value` is a byte count, as a 64-bit pattern.
unfoldable pub add_up : TrafficStore → ℤ → ℕ → TrafficStore
add_up t id value =
    let t' = ensure t id in
    let item = item_of t' id in insert id (record item { up = (item.up + value) % word64 }) t'

unfoldable pub add_down : TrafficStore → ℤ → ℕ → TrafficStore
add_down t id value =
    let t' = ensure t id in
    let item = item_of t' id in insert id (record item { down = (item.down + value) % word64 }) t'

unfoldable pub report_all : TrafficStore → List TrafficReport
report_all [] = []
report_all ((id, item) ∷ t) =
    let rest = report_all t in
    if nat_eq item.up 0 && nat_eq item.down 0
    then rest
    else record { id = id; u = item.up; d = item.down } ∷ rest

unfoldable pub reset_all : TrafficStore → TrafficStore
reset_all [] = []
reset_all ((id, item) ∷ t) =
    (id, if nat_eq item.up 0 && nat_eq item.down 0 then item else no_traffic) ∷ reset_all t

unfoldable pub snapshot_and_reset : TrafficStore → TrafficStore × List TrafficReport
snapshot_and_reset t = (reset_all t, report_all t)
