-- ===== src/Actor/Linked.antt =====
-- An actor that is linked to one that has exited is stopped.
use h3llo.Base.{
  ℕ, List, [], ◌∷◌, ◌++◌, Bool, true, false, ◌==◌, ==_iff, ◌≡◌, ◌⊎◌, refl, sym, ◌∙◌, subst, Memᴰ,
  inl, inr, Bool-cases, arith,
}
use mathlib.Core.List.Memᴰ.{head, tail, append_left, append_right}
use h3llo.Actor.{
  ActorBus, BusEvent, linked, finished, update, send_link, link, drain, monitor, bus_step, bus_run,
}

-- `b` was sent `Stop`, or waits in the open queue of `a`.
abbrev IsGuarded : ℕ → ℕ → ActorBus → Type 0
IsGuarded a b s = (s.stopped b ≡ true) ⊎ ((s.closed a ≡ false) × Memᴰ b (s.links a))

update_same : {A : Type 0} → (a : ℕ) (value : A) (f : ℕ → A) → update a value f a ≡ value
update_same a value f = let same = (==_iff a a).1 refl in rw same refl

update_kept : (a b : ℕ) (f : ℕ → Bool) → f b ≡ true → update a true f b ≡ true
update_kept a b f h = elim (Bool-cases (b == a)) [ inl e ↦ rw e refl | inr e ↦ rw e h ]

drain_kept : (ls : List ℕ) (f : ℕ → Bool) (b : ℕ) → f b ≡ true → drain ls f b ≡ true
drain_kept [] f b h = h
drain_kept (l ∷ ls) f b h = drain_kept ls (update l true f) b (update_kept l b f h)

drain-mem : (ls : List ℕ) (f : ℕ → Bool) (b : ℕ) → Memᴰ b ls → drain ls f b ≡ true
drain-mem [] f b m = elim m [ ]
drain-mem (l ∷ ls) f b (head same) =
    drain_kept ls (update l true f) b
      (subst (λ z. update z true f b ≡ true) same (update_same b true f))
drain-mem (l ∷ ls) f b (tail below) = drain-mem ls (update l true f) b below

links-update :
    (a c : ℕ) (extra b : ℕ) (f : ℕ → List ℕ)
    → Memᴰ b (f a)
    → Memᴰ b (update c (f c ++ (extra ∷ [])) f a)
links-update a c extra b f m = elim (Bool-cases (a == c)) [
  | inl e ↦
      let same : a ≡ c = (==_iff a c).0 e in
      rw e (append_left (extra ∷ []) (subst (λ z. Memᴰ b (f z)) same m))
  | inr e ↦ rw e m
]

send_link-IsGuarded :
    (a b c d : ℕ) (s : ActorBus) → IsGuarded a b s → IsGuarded a b (send_link c d s)
send_link-IsGuarded a b c d s g = elim (Bool-cases (s.closed c)) [
  | inl e ↦ rw e (elim g [ inl h ↦ inl (update_kept d b s.stopped h) | inr k ↦ inr k ])
  | inr e ↦ rw e (elim g [ inl h ↦ inl h | inr k ↦ inr (k.0, links-update a c d b s.links k.1) ])
]

send_link_guards : (a b : ℕ) (s : ActorBus) → IsGuarded a b (send_link a b s)
send_link_guards a b s = elim (Bool-cases (s.closed a)) [
  | inl e ↦ rw e (inl (update_same b true s.stopped))
  | inr e ↦
      let queued : Memᴰ b (update a (s.links a ++ (b ∷ [])) s.links a) =
        subst (Memᴰ b) (sym (update_same a (s.links a ++ (b ∷ [])) s.links))
          (append_right (s.links a) (head refl)) in
      rw e (inr (e, queued))
]

bus_step-IsGuarded :
    (a b : ℕ) (e : BusEvent) (s : ActorBus) → IsGuarded a b s → IsGuarded a b (bus_step e s)
unfolding link monitor
bus_step-IsGuarded a b (linked c d) s g =
    send_link-IsGuarded a b d c (send_link c d s) (send_link-IsGuarded a b c d s g)
bus_step-IsGuarded a b (finished r result) s (inl h) = inl (drain_kept (s.links r.id) s.stopped b h)
bus_step-IsGuarded a b (finished r result) s (inr k) = elim (Bool-cases (a == r.id)) [
  | inl e ↦
      let same : a ≡ r.id = (==_iff a r.id).0 e in
      inl (drain-mem (s.links r.id) s.stopped b (subst (λ z. Memᴰ b (s.links z)) same k.1))
  | inr e ↦ inr (rw e k)
]

bus_run-IsGuarded :
    (a b : ℕ) (es : List BusEvent) (s : ActorBus) → IsGuarded a b s → IsGuarded a b (bus_run es s)
unfolding bus_run
bus_run-IsGuarded a b [] s g = g
bus_run-IsGuarded a b (e ∷ es) s g =
    bus_run-IsGuarded a b es (bus_step e s) (bus_step-IsGuarded a b e s g)

guarded_stopped :
    (a b : ℕ) (s : ActorBus) → IsGuarded a b s → s.closed a ≡ true → s.stopped b ≡ true
guarded_stopped a b s (inl h) gone = h
guarded_stopped a b s (inr k) gone = let both : true ≡ false = sym gone ∙ k.0 in ground arith

-- Two actors are linked in any state of the bus, the exit of one or of both before the link
-- included, and then anything happens: whichever of the two has exited in the end, the other was
-- sent `Stop`.
pub bus_run-link :
    (a b : ℕ) (es : List BusEvent) (s : ActorBus)
    → ((bus_run es (link a b s)).closed a ≡ true → (bus_run es (link a b s)).stopped b ≡ true)
      × ((bus_run es (link a b s)).closed b ≡ true → (bus_run es (link a b s)).stopped a ≡ true)
unfolding link
bus_run-link a b es s =
    let there =
      bus_run-IsGuarded a b es _
        (send_link-IsGuarded a b b a (send_link a b s) (send_link_guards a b s)) in
    let back = bus_run-IsGuarded b a es _ (send_link_guards b a (send_link a b s)) in
    (
      guarded_stopped a b (bus_run es (link a b s)) there,
      guarded_stopped b a (bus_run es (link a b s)) back,
    )
