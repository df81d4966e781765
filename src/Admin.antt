-- ===== src/Admin.antt =====
-- How the tools find Envoy's admin address and the port of its listener: `wait_for_envoy_admin` and
-- `discover_listener_port` of tools/crs-compatibility-report.py, and their twins in the other tools.
-- The lab's twin puts `int` around the port, which Lab/Envoy adds.
-- `to_int` is Python's `int` on a text.
pub mod Ready
pub mod Listing
pub mod Clock
mod Tests
use envoy_modsecurity.Prelude.{
  ℕ, Bool, true, false, ◌||◌, List, [], ◌∷◌, Option, none, some, if◌then◌else◌, ◌==◌, nat_eq,
  list_eq,
}
use envoy_modsecurity.Prelude.Lists.{is_empty}
use envoy_modsecurity.Prelude.Dicts.{get}
use envoy_modsecurity.Prelude.Text.{Str, codes, is_space}
use envoy_modsecurity.Prelude.Split.{strip, rsplit_once}
use envoy_modsecurity.Prelude.Int.{ℤ}
use envoy_modsecurity.Prelude.Json.{Json, text, array, object, Items, nil, cons, items}

-- A round of the loop that begins before the deadline: whether Envoy still runs, the text of the
-- address file if it exists, and the status of `/ready` at an address, `none` where the request
-- raises one of the exceptions that are caught.
pub record Poll : Type 0 where
  pub running : Bool
  pub address_file : Option Str
  pub ready : Str → ℤ → Option ℕ

pub data Waited : Type 0 where
  admin_ready : (host : Str) (port : ℤ) → Waited
  -- RuntimeError, with the process's status or at the deadline
  exited timed_out : Waited

abbrev pub is_bracket : ℕ → Bool
is_bracket c = c == b'[' || c == b']'

module _ (to_int : Str → Option ℤ) where
  -- `host, port = address.rsplit(":", 1)`, with the host out of its brackets; `none` is ValueError.
  unfoldable pub parse_address : Str → Option (Str × ℤ)
  unfolding rsplit_once strip
  parse_address address = elim (rsplit_once b':' address) [
    | none ↦ none
    | some (host, port) ↦ elim (to_int port) [
      | none ↦ none
      | some n ↦ some (strip is_bracket host, n)
    ]
  ]

  -- The statements under `if address_path.exists()`, with the text of the file.
  unfoldable pub answer_at : Poll → Str → Option (Str × ℤ)
  answer_at poll file =
      let address = strip is_space file in
      if is_empty address then none else elim (parse_address address) [
        | none ↦ none
        | some (host, port) ↦ elim (poll.ready host port) [
          | none ↦ none
          | some status ↦ if status == 200 then some (host, port) else none
        ]
      ]

  -- The body of the loop for a process that runs; `none` goes on to the next round.
  unfoldable pub poll_address : Poll → Option (Str × ℤ)
  poll_address poll = elim poll.address_file [ none ↦ none | some file ↦ answer_at poll file ]

  unfoldable pub wait_for_admin : List Poll → Waited
  wait_for_admin [] = timed_out
  wait_for_admin (poll ∷ polls) =
      let rest = wait_for_admin polls in
      if poll.running
      then elim (poll_address poll) [ some (host, port) ↦ admin_ready host port | none ↦ rest ]
      else exited

-- `d[key]`; `none` is KeyError, or TypeError where `d` is no dict.
abbrev pub item : Str → Json → Option Json
item key (object fs) = get key (items fs)
item key _ = none

abbrev pub item_of : Str → Option Json → Option Json
item_of key none = none
item_of key (some d) = item key d

abbrev pub named : Str → Json → Bool
named name (text s) = s == name
named name _ = false

-- The loop over the listeners; `none` is RuntimeError, or KeyError at an entry without a key.
unfoldable pub find_listener : Str → Items → Option Json
find_listener name nil = none
find_listener name (cons listener listeners) =
    let rest = find_listener name listeners in
    elim (item (codes "name") listener) [
      | none ↦ none
      | some found ↦
          if named name found
          then item_of (codes "port_value")
              (item_of (codes "socket_address") (item (codes "local_address") listener))
          else rest
    ]

abbrev pub find_in : Str → Option Json → Option Json
find_in name (some (array listeners)) = find_listener name listeners
find_in name _ = none

-- `none` is an exception, as for a status other than 200.
unfoldable pub discover_listener_port : Str → (status : ℕ) → Json → Option Json
discover_listener_port name status body =
    if status == 200 then find_in name (item (codes "listener_statuses") body) else none
