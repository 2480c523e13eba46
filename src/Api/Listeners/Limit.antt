-- ===== src/Api/Listeners/Limit.antt =====
-- The limit of connections, and who is connected.
use ghaf_device_manager.Base.{
  ℕ, suc, ◌+◌, Bool, true, ◌&&◌, ◌≡◌, refl, ap, sym, ◌∙◌, Option, none, some, List, [], ◌∷◌, ◌++◌,
  length, all, Bool-cases, inl, inr, arith,
}
use ghaf_device_manager.Api.Listeners.{
  Client, admits, Listening, max_connections, accepted, acquires, accepts, closes, Reach, here,
  next,
}

-- Each permit is in one place, and each client is one that the configuration admits.
pub record IsLimited (allowed : List ℕ) (l : Listening) : Type 0 where
  pub permits : l.free + l.waiting + length l.connected ≡ max_connections
  pub admitted : all (admits allowed) l.connected ≡ true

all-append : (p : Client → Bool) (xs ys : List Client) → all p (xs ++ ys) ≡ (all p xs && all p ys)
all-append p [] ys = refl
all-append p (x ∷ xs) ys = ground (arith, all-append p xs ys)

length-append : (xs ys : List Client) → length (xs ++ ys) ≡ length xs + length ys
length-append [] ys = omega (arith)
length-append (x ∷ xs) ys = omega (arith, length-append xs ys)

accepted-IsLimited :
    (allowed : List ℕ) (client : Option Client) (waiting : ℕ) (l : Listening)
    → l.waiting ≡ suc waiting
    → IsLimited allowed l
    → IsLimited allowed (accepted allowed client waiting l)
unfolding accepted
accepted-IsLimited allowed none waiting l e h = record {
  permits = omega (arith, h.permits);
  admitted = h.admitted;
}
accepted-IsLimited allowed (some c) waiting l e h = elim (Bool-cases (admits allowed c)) [
  | inl a ↦ rw a record { permits = omega (arith, h.permits); admitted = rw a (h.admitted) }
  | inr a ↦ rw a record { permits = omega (arith, h.permits); admitted = h.admitted }
]

closes-IsLimited :
    (allowed : List ℕ) (before after : List Client) (c : Client) (l : Listening)
    → l.connected ≡ before ++ (c ∷ after)
    → IsLimited allowed l
    → IsLimited allowed (record l { free = suc l.free; connected = before ++ after })
closes-IsLimited allowed before after c l e h =
    let count = ap length e ∙ length-append before (c ∷ after) in
    let known =
      sym (all-append (admits allowed) before (c ∷ after))
      ∙ ap (all (admits allowed)) (sym e)
      ∙ h.admitted in
    record {
      permits = omega (arith, h.permits, count, length-append before after);
      admitted = ground (arith, known, all-append (admits allowed) before after);
    }

-- However clients come, fail and go: the permits that are free, held by listeners and held by
-- connections are 64 together, so there are never more connections; and each connected client over vsock
-- has an allowed context identifier, or the list of them is empty.
pub Reach-IsLimited : (allowed : List ℕ) (l : Listening) → Reach allowed l → IsLimited allowed l
Reach-IsLimited allowed _ here = record { permits = refl; admitted = refl }
Reach-IsLimited allowed _ (next l m r (acquires free l' e)) =
    let h = Reach-IsLimited allowed l r in
    record { permits = omega (arith, h.permits); admitted = h.admitted }
Reach-IsLimited allowed _ (next l m r (accepts client waiting l' e)) =
    accepted-IsLimited allowed client waiting l e (Reach-IsLimited allowed l r)
Reach-IsLimited allowed _ (next l m r (closes before after c l' e)) =
    closes-IsLimited allowed before after c l e (Reach-IsLimited allowed l r)
