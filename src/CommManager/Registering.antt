-- ===== src/CommManager/Registering.antt =====
-- commmanager/abscommmanager.cpp: registering an object and finding it again.
use fncs.Base.{
  ℕ, ◌≡◌, ap, arith, true, false, [], registration_error, ok, throws, Name, name_key, name_beq_iff,
  ◌==◌, lookup, has_key, insert, lookup-insert, has_key-insert, if◌then◌else◌,
}
use fncs.Base.Actions.{Returns}
use fncs.Settings.{Settings}
use fncs.ObjectComm.{ObjectComm}
use fncs.Network.{Network}
use fncs.CommManager.{CommManager, found_interface, get_object_interface}
use fncs.CommManager.Receiving.{call-quiet}
use fncs.CommManager.Sending.{add_object_interface}

module _ {S : Type 0} (i : Settings) (net : Network S) (t : ℕ) (name : Name) where
  add_object_interface-new :
      (m : CommManager S) (s : S) (given : ObjectComm)
      → m.allow_registrations ≡ true
      → has_key name m.interfaces ≡ false
      → net.register_object name m.current_interface ≡ (s, [], ok tt)
      → add_object_interface i net t name given m
        ≡ (record m { interfaces = insert name given m.interfaces; current_interface = s }, ok tt)
  unfolding add_object_interface
  add_object_interface-new m s given allowed new registers =
      let registered = record m { interfaces = insert name given m.interfaces } in
      rw (call-quiet i t (net.register_object name) registered s tt registers)
        (ground (arith, allowed, new))

  add_object_interface-known :
      (m : CommManager S) (given : ObjectComm)
      → has_key name m.interfaces ≡ true
      → add_object_interface i net t name given m ≡ (m, throws registration_error)
  unfolding add_object_interface
  add_object_interface-known m given known = ground (arith, known)

  -- While registrations are allowed, and where the network interface registers the name without
  -- handing over messages, a new name is registered: its mailbox is the one found under that name,
  -- all others are found as before, and a second registration of the name throws and changes nothing.
  pub get_object_interface-add_object_interface :
      (m : CommManager S) (s : S) (given : ObjectComm)
      → m.allow_registrations ≡ true
      → has_key name m.interfaces ≡ false
      → net.register_object name m.current_interface ≡ (s, [], ok tt)
      → Returns
          (λ m' _.
            ((other : Name)
              → get_object_interface other m' ≡ (
                m',
                if name == other then ok given else found_interface (lookup other m.interfaces),
              ))
            × ((second : ObjectComm)
                → add_object_interface i net t name second m' ≡ (m', throws registration_error)))
          (add_object_interface i net t name given m)
  unfolding get_object_interface
  get_object_interface-add_object_interface m s given allowed new registers =
      let registered : CommManager S = record m {
        interfaces = insert name given m.interfaces;
        current_interface = s;
      } in
      rw (add_object_interface-new m s given allowed new registers) (
        λ other.
            ap (λ r. (registered, r))
              (ground (arith, lookup-insert name other given m.interfaces, new)),
        λ second.
            add_object_interface-known registered second
              (ground (arith, has_key-insert name name given m.interfaces, name_beq_iff name name)),
      )
