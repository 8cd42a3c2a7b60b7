-- ===== src/Controller/Changes/Names.antt =====
-- What a change of the network keeps.
use k8s_inc.Prelude.{
  ℕ, zero, suc, String, ◌≡◌, refl, ap, ◌∙◌, Bool, true, false, not, ◌&&◌, none, some, List, [], ◌∷◌,
  ◌++◌, map, arith, ltb, if◌then◌else◌, ℕ_eq, String_eq, contains, length, get_elem?, update_at,
}
use k8s_inc.Prelude.Result.{ok, err, panicked}
use k8s_inc.Model.Devices.{
  Device, Link, inc_switch, host, net_device, external_device, get_name, get_links, add_link,
  remove_link, with_base,
}
use k8s_inc.Model.Graph.{Topology}
use k8s_inc.Controller.Changes.{
  Changed, not_deleted, last_position, link_back, link_from, add_devices, unlink_back, unlink_all,
  remove_devices, keep_if, link_at, unlink_at, next_device, link_device, new_neighbour,
}

with_base-name :
    (d : Device) (links : List Link)
    → get_name (with_base (record { name = get_name d; links = links }) d) ≡ get_name d
with_base-name (inc_switch s) links = refl
with_base-name (host b) links = refl
with_base-name (net_device b) links = refl
with_base-name (external_device b) links = refl

names-update_at :
    (i : ℕ) (f : Device → Device) (devs : List Device)
    → ((d : Device) → get_name (f d) ≡ get_name d)
    → map get_name (update_at i f devs) ≡ map get_name devs
unfolding update_at
names-update_at i f [] same = refl
names-update_at zero f (d ∷ devs) same = rw (same d) refl
names-update_at (suc i) f (d ∷ devs) same = rw (names-update_at i f devs same) refl

abbrev Keeps : List Device → Changed → Type 0
Keeps devs t = map get_name t.1 ≡ map get_name devs

next-Keeps :
    (devs : List Device) (t : Changed) (next : List Device → Changed)
    → Keeps devs t
    → ((devs' : List Device) → Keeps devs' (next devs'))
    → Keeps devs (next_device t next)
next-Keeps devs (ok c, devs') next kept rest = rest devs' ∙ kept
next-Keeps devs (err e, devs') next kept rest = kept
next-Keeps devs (panicked, devs') next kept rest = kept

link_back-Keeps :
    (name : String) (links : List Link) (devs : List Device)
    → Keeps devs (link_back name links devs)
unfolding link_back add_link
link_back-Keeps name [] devs = refl
link_back-Keeps name (link ∷ links) devs =
    elim (last_position link.to devs)
      as (λ o. Keeps devs (link_at name link devs o (link_back name links))) [
        | none ↦ refl
        | some i ↦
            link_back-Keeps name links (update_at i (new_neighbour name) devs)
            ∙ names-update_at i (new_neighbour name) devs (λ d. with_base-name d _)
      ]

link_from-Keeps : (count i : ℕ) (devs : List Device) → Keeps devs (link_from count i devs)
unfolding link_from
link_from-Keeps zero i devs = refl
link_from-Keeps (suc count) i devs =
    next-Keeps devs (link_device (get_elem? devs i) devs) (link_from count (suc i))
      (elim (get_elem? devs i) as (λ o. Keeps devs (link_device o devs)) [
        | none ↦ refl
        | some d ↦ link_back-Keeps (get_name d) (get_links d) devs
      ])
      (link_from-Keeps count (suc i))

-- Whatever AddDevices returns, the new devices stand behind those of before and every device has
-- the name it had: an error takes back neither.
pub add_devices-names :
    (devices : List Device) (topo : Topology)
    → map get_name (add_devices devices topo).1 ≡ map get_name (topo.devices ++ devices)
unfolding add_devices
add_devices-names devices topo =
    link_from-Keeps (length devices) (length topo.devices) (topo.devices ++ devices)

unlink_back-Keeps :
    (name : String) (links : List Link) (devs : List Device)
    → Keeps devs (unlink_back name links devs)
unfolding unlink_back remove_link
unlink_back-Keeps name [] devs = refl
unlink_back-Keeps name (link ∷ links) devs =
    elim (last_position link.to devs)
      as (λ o. Keeps devs (unlink_at name devs o (unlink_back name links))) [
        | none ↦ refl
        | some i ↦
            unlink_back-Keeps name links (update_at i (remove_link name) devs)
            ∙ names-update_at i (remove_link name) devs (λ d. with_base-name d _)
      ]

unlink_all-Keeps : (deleted devs : List Device) → Keeps devs (unlink_all deleted devs)
unfolding unlink_all
unlink_all-Keeps [] devs = refl
unlink_all-Keeps (d ∷ deleted) devs =
    next-Keeps devs (unlink_back (get_name d) (get_links d) devs) (unlink_all deleted)
      (unlink_back-Keeps (get_name d) (get_links d) devs) (unlink_all-Keeps deleted)

contains-kept :
    (names : List String) (n : String) (devs : List Device)
    → contains n (map get_name (keep_if (λ d. not (contains (get_name d) names)) devs))
      ≡ (contains n (map get_name devs) && not (contains n names))
contains-kept names n [] = refl
contains-kept names n (d ∷ devs) =
    ground (arith, contains-kept names n devs, String_eq.same_iff (get_name d) n)

if-Keeps :
    (b : Bool) (devs : List Device) (t u : Changed)
    → Keeps devs t
    → Keeps devs u
    → Keeps devs (if b then t else u)
if-Keeps true devs t u keeps_t keeps_u = keeps_t
if-Keeps false devs t u keeps_t keeps_u = keeps_u

-- Whatever RemoveDevices returns, or where it panics, the names behind it are those of before
-- without the names to remove.
pub contains-remove_devices :
    (device_names : List String) (topo : Topology) (n : String)
    → contains n (map get_name (remove_devices device_names topo).1)
      ≡ (contains n (map get_name topo.devices) && not (contains n device_names))
unfolding remove_devices
contains-remove_devices names topo n =
    let deleted : List Device = keep_if (λ d. contains (get_name d) names) topo.devices in
    let kept : List Device = keep_if (λ d. not (contains (get_name d) names)) topo.devices in
    ap (contains n) (
      if-Keeps (ltb (length deleted) (length names)) kept (err not_deleted, kept)
        (unlink_all deleted kept) refl (unlink_all-Keeps deleted kept))
    ∙ contains-kept names n topo.devices
