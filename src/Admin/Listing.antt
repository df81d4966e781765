-- ===== src/Admin/Listing.antt =====
-- What `discover_listener_port` (tools/crs-compatibility-report.py and its twins) finds in a reply of
-- Envoy's admin API, whatever else the reply holds.
use envoy_modsecurity.Prelude.{
  ℕ, ◌≡◌, ◌↔◌, refl, true, false, List, [], ◌∷◌, Option, none, some, arith, ap, sym, subst, ◌∙◌,
  Bool-cases, Option-cases, inl, inr, ◌==◌, nat_eq, list_eq,
}
use mathlib.Core.Option.{none-ne-some}
use envoy_modsecurity.Prelude.Text.{Str, codes}
use envoy_modsecurity.Prelude.Json.{Json, array, Items, nil, cons}
use envoy_modsecurity.Admin.{item, item_of, named, find_listener, find_in, discover_listener_port}

-- `listener["local_address"]["socket_address"]["port_value"]`
abbrev pub port_of : Json → Option Json
port_of entry =
    item_of (codes "port_value")
      (item_of (codes "socket_address") (item (codes "local_address") entry))

-- The items with other entries before them.
abbrev pub prepend_all : List Json → Items → Items
prepend_all [] tail = tail
prepend_all (entry ∷ entries) tail = cons entry (prepend_all entries tail)

-- Each entry has a name, and another one.
abbrev pub HaveOtherNames : Str → List Json → Type 0
HaveOtherNames name [] = Unit
HaveOtherNames name (entry ∷ entries) =
    ((found : Json) × (item (codes "name") entry ≡ some found) × (named name found ≡ false))
    × HaveOtherNames name entries

-- The first entry with the name, and its port.
pub record IsFirst (name : Str) (port : Json) (all : Items) : Type 0 where
  pub before : List Json
  pub entry : Json
  pub after : Items
  pub split : all ≡ prepend_all before (cons entry after)
  pub others : HaveOtherNames name before
  pub has_name :
      (found : Json) × (item (codes "name") entry ≡ some found) × (named name found ≡ true)
  pub has_port : port_of entry ≡ some port

-- A step of the loop at an entry with the name, and at another one.
find_here :
    (name : Str) (entry : Json) (rest : Items) {found : Json}
    → item (codes "name") entry ≡ some found
    → named name found ≡ true
    → find_listener name (cons entry rest) ≡ port_of entry
unfolding find_listener
find_here name entry rest is_found here = ground (arith, is_found, here)

find_later :
    (name : Str) (entry : Json) (rest : Items) {found : Json}
    → item (codes "name") entry ≡ some found
    → named name found ≡ false
    → find_listener name (cons entry rest) ≡ find_listener name rest
unfolding find_listener
find_later name entry rest is_found other = ground (arith, is_found, other)

find_nameless :
    (name : Str) (entry : Json) (rest : Items)
    → item (codes "name") entry ≡ none
    → find_listener name (cons entry rest) ≡ none
unfolding find_listener
find_nameless name entry rest h = ground (arith, h)

none_found : (name : Str) → find_listener name nil ≡ none
unfolding find_listener
none_found name = refl

IsFirst-later :
    (name : Str) (port entry : Json) (rest : Items) {found : Json}
    → item (codes "name") entry ≡ some found
    → named name found ≡ false
    → IsFirst name port rest
    → IsFirst name port (cons entry rest)
IsFirst-later name port entry rest {found} is_found other first = record {
  before = entry ∷ first.before;
  entry = first.entry;
  after = first.after;
  split = ap (cons entry) first.split;
  others = ((found, is_found, other), first.others);
  has_name = first.has_name;
  has_port = first.has_port;
}

find_listener-IsFirst :
    (name : Str) (port : Json) (all : Items)
    → find_listener name all ≡ some port
    → IsFirst name port all
find_listener-IsFirst name port nil h = absurd (none-ne-some port (sym (none_found name) ∙ h))
find_listener-IsFirst name port (cons entry rest) h =
    elim (Option-cases (item (codes "name") entry)) [
      | inl nameless ↦ absurd (none-ne-some port (sym (find_nameless name entry rest nameless) ∙ h))
      | inr (found, is_found) ↦ elim (Bool-cases (named name found)) [
        | inl here ↦ record {
          before = [];
          entry = entry;
          after = rest;
          split = refl;
          others = tt;
          has_name = (found, is_found, here);
          has_port = sym (find_here name entry rest is_found here) ∙ h;
        }
        | inr other ↦ IsFirst-later name port entry rest is_found other (
            find_listener-IsFirst name port rest
              (sym (find_later name entry rest is_found other) ∙ h))
      ]
    ]

find_listener-prepend_all :
    (name : Str) (before : List Json) (tail : Items)
    → HaveOtherNames name before
    → find_listener name (prepend_all before tail) ≡ find_listener name tail
find_listener-prepend_all name [] tail h = refl
find_listener-prepend_all name (entry ∷ before) tail ((found, is_found, other), h) =
    find_later name entry (prepend_all before tail) is_found other
    ∙ find_listener-prepend_all name before tail h

IsFirst-find_listener :
    (name : Str) (port : Json) (all : Items)
    → IsFirst name port all
    → find_listener name all ≡ some port
IsFirst-find_listener name port all first =
    let (found, is_found, here) = first.has_name in
    ap (find_listener name) first.split
    ∙ find_listener-prepend_all name first.before (cons first.entry first.after) first.others
    ∙ find_here name first.entry first.after is_found here
    ∙ first.has_port

-- What a reply has to be.
pub record Lists (name : Str) (port : Json) (status : ℕ) (body : Json) : Type 0 where
  pub answered : status ≡ 200
  pub statuses : Items
  pub listed : item (codes "listener_statuses") body ≡ some (array statuses)
  pub first : IsFirst name port statuses

find_in-Lists :
    (name : Str) (port body : Json) (statuses : Option Json)
    → item (codes "listener_statuses") body ≡ statuses
    → find_in name statuses ≡ some port
    → Lists name port 200 body
find_in-Lists name port body none e h = cc
find_in-Lists name port body (some (array all)) e h = record {
  answered = refl;
  statuses = all;
  listed = e;
  first = find_listener-IsFirst name port all h;
}
find_in-Lists name port body (some _) e h = cc

-- Whatever Envoy replies to the request for its listeners, a port is discovered for a name
-- exactly when the status is 200 and the reply lists an entry with the name and that port, before
-- which all entries have other names; an entry may hold anything else.
pub discover_listener_port_lem :
    (name : Str) (port : Json) (status : ℕ) (body : Json)
    → (discover_listener_port name status body ≡ some port) ↔ Lists name port status body
unfolding discover_listener_port
discover_listener_port_lem name port status body = (
  λ h. elim (Bool-cases (status == 200)) [
    | inl good ↦
        subst (λ n. Lists name port n body) (sym ((nat_eq.beq_iff status 200).0 good))
          (find_in-Lists name port body (item (codes "listener_statuses") body) refl (rw good at h))
    | inr bad ↦ absurd (none-ne-some port (rw bad at h))
  ],
  λ l.
      rw ((nat_eq.beq_iff status 200).1 l.answered, l.listed)
        (IsFirst-find_listener name port l.statuses l.first),
)
