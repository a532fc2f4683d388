-- ===== src/Controller/Requests/Granted.antt =====
-- What `setPermissionForUsers`, `allowProtect` and `denyProtect` of server/NetworkController.cpp
-- change for a user.
use system_netd.Prelude.{
  ℕ, ◌≡◌, refl, inl, inr, Bool, false, not, ◌&&◌, ◌||◌, some, List, [], ◌∷◌, ◌==◌, arith,
  if◌then◌else◌, Bool-cases,
}
use system_netd.Prelude.Keys.{nat_key}
use system_netd.Containers.Map
use system_netd.Containers.Map.{Map}
use system_netd.Containers.OrderedSet
use system_netd.Platform.{Platform}
use system_netd.Controller.{Controller, get_permission_for_user, is_protectable, permission_or}
use system_netd.Controller.Requests.{
  assign_all, insert_all, erase_all, set_permission_for_users, allow_protect, deny_protect,
}

-- The UID is in the list.
abbrev pub listed : ℕ → List ℕ → Bool
listed uid [] = false
listed uid (u ∷ us) = u == uid || listed uid us

find-assign_all :
    (permission uid : ℕ) (uids : List ℕ) (users : Map ℕ ℕ)
    → Map.find uid (assign_all permission uids users)
      ≡ (if listed uid uids then some permission else Map.find uid users)
unfolding assign_all
find-assign_all permission uid [] users = refl
find-assign_all permission uid (u ∷ us) users =
    let users' = Map.insert u permission users in
    ground (arith, find-assign_all permission uid us users', Map.find-insert u uid permission users)

contains-insert_all :
    (uid : ℕ) (uids s : List ℕ)
    → OrderedSet.contains uid (insert_all uids s) ≡ (listed uid uids || OrderedSet.contains uid s)
unfolding insert_all
contains-insert_all uid [] s = refl
contains-insert_all uid (u ∷ us) s =
    let s' = OrderedSet.insert u s in
    ground (arith, contains-insert_all uid us s', OrderedSet.contains-insert u uid s)

contains-erase_all :
    (uid : ℕ) (uids s : List ℕ)
    → OrderedSet.contains uid (erase_all uids s)
      ≡ (not (listed uid uids) && OrderedSet.contains uid s)
unfolding erase_all
contains-erase_all uid [] s = refl
contains-erase_all uid (u ∷ us) s =
    let s' = OrderedSet.erase u s in
    ground (arith, contains-erase_all uid us s', OrderedSet.contains-erase u uid s)

module _ {W : Type 0} (p : Platform W) (uids : List ℕ) (c : Controller W) (uid : ℕ) where
  -- `setPermissionForUsers` gives each user of the list the permission, and no other user another.
  set_permission-Granted :
      (permission : ℕ)
      → get_permission_for_user p (set_permission_for_users permission uids c) uid
        ≡ (if listed uid uids then permission else get_permission_for_user p c uid)
  unfolding get_permission_for_user set_permission_for_users permission_or
  set_permission-Granted permission =
      rw (find-assign_all permission uid uids c.users)
        (elim (Bool-cases (listed uid uids)) [ inl here ↦ rw here refl | inr gone ↦ rw gone refl ])

  -- After `allowProtect` the users of the list may protect sockets and the others as before; after
  -- `denyProtect` the users of the list may not and the others as before.
  protect-Granted :
      (is_protectable p (allow_protect uids c) uid ≡ (listed uid uids || is_protectable p c uid))
      × (is_protectable p (deny_protect uids c) uid
          ≡ (not (listed uid uids) && is_protectable p c uid))
  unfolding allow_protect deny_protect
  protect-Granted = (
    contains-insert_all uid uids c.protectable_users,
    contains-erase_all uid uids c.protectable_users,
  )

  -- The calls on lists of users: `setPermissionForUsers` gives each user of the list the permission;
  -- after `allowProtect` the users of the list may protect sockets, and after `denyProtect` they may
  -- not. For other users each of them changes nothing.
  pub users-Granted :
      (permission : ℕ)
      → (get_permission_for_user p (set_permission_for_users permission uids c) uid
          ≡ (if listed uid uids then permission else get_permission_for_user p c uid))
        × (is_protectable p (allow_protect uids c) uid
            ≡ (listed uid uids || is_protectable p c uid))
        × (is_protectable p (deny_protect uids c) uid
            ≡ (not (listed uid uids) && is_protectable p c uid))
  users-Granted permission =
      (set_permission-Granted permission, protect-Granted.0, protect-Granted.1)
