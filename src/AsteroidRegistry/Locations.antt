-- ===== src/AsteroidRegistry/Locations.antt =====
-- Where a wallet mines: the index of the miners against the miners of each asteroid.
use astroid_club.Prelude.{
  Bool, Option-cases, arith, false, holds, if◌then◌else◌, inl, inr, nat_eq, true, ℕ, ◌&&◌, ◌+◌, ◌-◌,
  ◌==◌, ◌||◌, ◌≡◌,
}
use astroid_club.JsMap.{get, has, delete}
use astroid_club.JsMap.Laws.{get-set, get-delete}
use astroid_club.AsteroidRegistry.{Asteroid, Registry, change, update_resource_mechanics, add}
use astroid_club.AsteroidRegistry.Miners.{evicted, remove_miner, settled, add_miner, leave_previous}

-- Whether an asteroid counts a wallet among its miners, and whether the index has it there.
abbrev pub mines : ℕ → ℕ → Registry → Bool
mines w a r = holds (λ s. has w s.active_miners) (get a r.asteroids)

abbrev pub located : ℕ → ℕ → Registry → Bool
located w a r = holds (λ b. b == a) (get w r.miner_locations)

-- The two agree, so that no wallet mines at two asteroids.
abbrev pub Placed : Registry → Type 0
Placed r = (w a : ℕ) → mines w a r ≡ located w a r

pub mechanics-miners :
    (s : Asteroid) → (update_resource_mechanics s).active_miners ≡ s.active_miners
unfolding update_resource_mechanics
mechanics-miners s = ground arith

mines-change :
    (a : ℕ) (f : Asteroid → Asteroid) (r : Registry) (w b : ℕ)
    → ((s : Asteroid) → (f s).active_miners ≡ s.active_miners)
    → mines w b (change a f r) ≡ mines w b r
mines-change a f r w b h = elim (Option-cases (get a r.asteroids)) [
  | inl e ↦ ground (arith, e)
  | inr (s, e) ↦ ground (arith, e, h s, get-set b a (f s) r.asteroids)
]

located-change :
    (a : ℕ) (f : Asteroid → Asteroid) (r : Registry) (w b : ℕ)
    → located w b (change a f r) ≡ located w b r
located-change a f r w b = ground arith

-- A change that leaves the miners of every asteroid alone.
pub change-Placed :
    (a : ℕ) (f : Asteroid → Asteroid) (r : Registry)
    → ((s : Asteroid) → (f s).active_miners ≡ s.active_miners)
    → Placed r
    → Placed (change a f r)
change-Placed a f r h p w b =
    ground (arith, mines-change a f r w b h, located-change a f r w b, p w b)

mines-remove :
    (w power : ℕ) (r : Registry) (v b : ℕ)
    → Placed r
    → mines v b (remove_miner w power r).0
      ≡ (if v == w && (remove_miner w power r).1 then false else mines v b r)
unfolding remove_miner
mines-remove w power r v b p = elim (Option-cases (get w r.miner_locations)) [
  | inl e ↦ ground (arith, e)
  | inr (a, e) ↦ elim (Option-cases (get a r.asteroids)) [
    | inl e' ↦ ground (arith, e, e')
    | inr (s, e') ↦
        let t = record s {
          active_miners = delete w s.active_miners;
          total_drill_power = s.total_drill_power - power;
        } in
        ground (
          arith,
          e,
          e',
          p w b,
          mechanics-miners t,
          get-set b a (evicted w power s) r.asteroids,
          get-delete v w s.active_miners,
        )
  ]
]

located-remove :
    (w power : ℕ) (r : Registry) (v b : ℕ)
    → located v b (remove_miner w power r).0
      ≡ (if v == w && (remove_miner w power r).1 then false else located v b r)
unfolding remove_miner
located-remove w power r v b = ground (arith, get-delete v w r.miner_locations)

pub remove_miner-Placed :
    (w power : ℕ) (r : Registry) → Placed r → Placed (remove_miner w power r).0
remove_miner-Placed w power r p v b =
    ground (arith, p v b, mines-remove w power r v b p, located-remove w power r v b)

pub leave_previous-Placed : (w a : ℕ) (r : Registry) → Placed r → Placed (leave_previous w a r)
leave_previous-Placed w a r p v b = elim (Option-cases (get w r.miner_locations)) [
  | inl e ↦ ground (arith, e, p v b)
  | inr (c, e) ↦ ground (arith, e, p v b, remove_miner-Placed w 0 r p v b)
]

-- Having left, the wallet mines nowhere but at the asteroid that it joins.
leave_previous-elsewhere :
    (w a b : ℕ) (r : Registry)
    → Placed r
    → (b == a) ≡ false
    → located w b (leave_previous w a r) ≡ false
unfolding remove_miner
leave_previous-elsewhere w a b r p h = elim (Option-cases (get w r.miner_locations)) [
  | inl e ↦ ground (arith, e)
  | inr (c, e) ↦ elim (Option-cases (get c r.asteroids)) [
    | inl e' ↦ ground (arith, e, e', h, p w c)
    | inr (s, e') ↦ ground (arith, e, e', h, get-delete w w r.miner_locations)
  ]
]

leave_previous-has :
    (w a b : ℕ) (r : Registry) → has b (leave_previous w a r).asteroids ≡ has b r.asteroids
unfolding remove_miner
leave_previous-has w a b r = elim (Option-cases (get w r.miner_locations)) [
  | inl e ↦ ground (arith, e)
  | inr (c, e) ↦ elim (Option-cases (get c r.asteroids)) [
    | inl e' ↦ ground (arith, e, e')
    | inr (s, e') ↦ ground (arith, e, e', get-set b c (evicted w 0 s) r.asteroids)
  ]
]

mines-settled :
    (w power a v b : ℕ) (r : Registry)
    → has a r.asteroids ≡ true
    → mines v b (change a (settled w power) r)
      ≡ (if b == a then v == w || mines v b r else mines v b r)
mines-settled w power a v b r h = elim (Option-cases (get a r.asteroids)) [
  | inl e ↦ ground (arith, e, h)
  | inr (s, e) ↦
      let t = record s {
        active_miners = add w s.active_miners;
        total_drill_power = s.total_drill_power + power;
      } in
      ground (
        arith,
        e,
        mechanics-miners t,
        get-set b a (settled w power s) r.asteroids,
        get-set v w tt s.active_miners,
      )
]

pub add_miner-Placed : (w a power : ℕ) (r : Registry) → Placed r → Placed (add_miner w a power r).0
unfolding add_miner
add_miner-Placed w a power r p v b = elim (Option-cases (get a r.asteroids)) [
  | inl e ↦ ground (arith, e, p v b)
  | inr (s, e) ↦
      let r' = leave_previous w a r in
      ground (
        arith,
        e,
        leave_previous-Placed w a r p v b,
        leave_previous-elsewhere w a b r p,
        leave_previous-has w a a r,
        mines-settled w power a v b r',
        get-set v w a r'.miner_locations,
      )
]
