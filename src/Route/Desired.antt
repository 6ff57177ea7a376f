-- ===== src/Route/Desired.antt =====
-- The prefixes that a synchronization wants on the TUN device, and those that it leaves to the system.
use h3llo.Base.{◌≤◌, List, ◌∷◌, Option, some, true, false, ◌≡◌, ◌≢◌, ◌⊎◌, Memᴰ}
use h3llo.Route.{RouteNets}

module _ {Net : Type 0} (nets : RouteNets Net) where
  -- One of the two halves, where there are two.
  abbrev pub IsHalf : Option (List Net) → (a net : Net) → Type 0
  IsHalf (some (x ∷ y ∷ more)) a net = (net ≡ x) ⊎ (net ≡ y)
  IsHalf _ a net = net ≡ a

  -- A default route stands for its halves of length 1, any other prefix for itself.
  abbrev pub StandsFor : (a net : Net) → Type 0
  StandsFor a net =
      ((nets.prefix_len a ≢ 0) × (net ≡ a))
      ⊎ ((nets.prefix_len a ≡ 0) × IsHalf (nets.subnets a 1) a net)

  -- No prefix of the TUN device covers it.
  abbrev pub IsUncovered : List Net → Net → Type 0
  IsUncovered tun_addrs net =
      (addr : Net) → Memᴰ addr tun_addrs → nets.contains (nets.trunc addr) net ≡ false

  -- What the system has by itself for one address of the device.
  abbrev pub IsOwnOf : (addr net : Net) → Type 0
  IsOwnOf addr net =
      (net ≡ nets.trunc addr)
      ⊎ ((net ≡ nets.host (nets.addr addr))
          ⊎ (((nets.is_v4 (nets.trunc addr) ≡ true) × (nets.prefix_len (nets.trunc addr) ≤ 30))
              × ((net ≡ nets.host (nets.network (nets.trunc addr)))
                  ⊎ (net ≡ nets.host (nets.broadcast (nets.trunc addr))))))
