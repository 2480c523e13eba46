-- ===== src/Api/Connection/Served.antt =====
-- What a client gets: one response for each line, and, once asked for, the broadcasts in their order.
use mathlib.Core.List.{append_assoc, append-nil}
use mathlib.Core.Path.{subst}
use ghaf_device_manager.Base.{
  ℕ, suc, ◌+◌, ◌≤◌, String, Bool, true, false, ◌||◌, ◌≡◌, refl, ap, sym, ◌∙◌, List, [], ◌∷◌, ◌++◌,
  length, any, any-append, arith, ◌⊎◌, inl, inr,
}
use ghaf_device_manager.Base.Outcome.{Result, ok, err}
use ghaf_device_manager.Base.Parts.{
  IsPart, nothing, IsPart-append, IsPart-refl, IsPart-none, IsPart-middle,
}
use ghaf_device_manager.Protocol.{Action, Response}
use ghaf_device_manager.Machine.{Setup, Machine, Notification}
use ghaf_device_manager.Api.Connection.Cases.{
  length-snoc, quiet-or, still-or, due-of, asked-of, on-asked, closing,
}
use ghaf_device_manager.Api.Connection.{
  Sent, Connection, Wire, news, is_enabling, message_of, answer, answered, respond, handle_line,
  notify, Step, line, ended, takes, lagged, elsewhere, Reach, here, next,
}

abbrev pub notes : List Sent → List Notification
notes [] = []
notes (Sent.response r ∷ xs) = notes xs
notes (Sent.notification v ∷ xs) = v ∷ notes xs

abbrev pub responses : List Sent → ℕ
responses [] = 0
responses (Sent.response r ∷ xs) = suc (responses xs)
responses (Sent.notification v ∷ xs) = responses xs

notes-append : (xs ys : List Sent) → notes (xs ++ ys) ≡ notes xs ++ notes ys
notes-append [] ys = refl
notes-append (Sent.response r ∷ xs) ys = notes-append xs ys
notes-append (Sent.notification v ∷ xs) ys = ap (λ l. v ∷ l) (notes-append xs ys)

responses-append : (xs ys : List Sent) → responses (xs ++ ys) ≡ responses xs + responses ys
responses-append [] ys = omega (arith)
responses-append (Sent.response r ∷ xs) ys = omega (arith, responses-append xs ys)
responses-append (Sent.notification v ∷ xs) ys = responses-append xs ys

-- One notification more, the rest of the channel behind it.
notes-snoc :
    (xs : List Sent) (v : Notification) (rest : List Notification)
    → notes (xs ++ (Sent.notification v ∷ [])) ++ rest ≡ notes xs ++ (v ∷ rest)
notes-snoc xs v rest =
    ap (λ l. l ++ rest) (notes-append xs (Sent.notification v ∷ []))
    ∙ append_assoc (notes xs) (v ∷ []) rest

notes-response : (xs : List Sent) (r : Response) → notes (xs ++ (Sent.response r ∷ [])) ≡ notes xs
notes-response xs r = notes-append xs (Sent.response r ∷ []) ∙ append-nil (notes xs)

abbrev asking : Result Action → Bool
asking (err e) = false
asking (ok message) = is_enabling message

module _ ⦃d : Setup⦄ (wire : Wire) where
  -- A line that asks for notifications.
  abbrev pub asks : Result String → Bool
  asks l = asking (message_of wire l)

  -- The notifications sent, and those that wait, are broadcasts since the client connected, in their order
  -- and each at most once. None is sent before the client has asked for them. As long as the connection is
  -- open each line has had one response.
  pub record IsServed (broadcast : List Notification) (c : Connection) : Type 0 where
    pub in_order : IsPart (notes c.sent ++ c.unread) broadcast
    pub quiet : (any asks c.received ≡ true) ⊎ (notes c.sent ≡ [])
    pub answered : (c.closed ≡ true) ⊎ (responses c.sent ≡ length c.received)
    pub bounded : responses c.sent ≤ length c.received
    pub asked : (c.enabled ≡ false) ⊎ (any asks c.received ≡ true)

  answer-asking : (r : Result Action) (m : Machine) → (answer wire r m).0 ≡ asking r
  answer-asking (err e) m = refl
  answer-asking (ok message) m = refl

  -- The same while a line is heard and has no response yet.
  record IsHeard (broadcast : List Notification) (c : Connection) : Type 0 where
    in_order : IsPart (notes c.sent ++ c.unread) broadcast
    quiet : (any asks c.received ≡ true) ⊎ (notes c.sent ≡ [])
    due : suc (responses c.sent) ≡ length c.received
    asked : (c.enabled ≡ false) ⊎ (any asks c.received ≡ true)

  answered-IsServed :
      (vs : List Notification) (c : Connection) (text : Result String) (r : Response) (taken : Bool)
      → IsHeard vs c
      → IsServed vs (answered wire text r taken c)
  answered-IsServed vs c (err e) r taken h = record {
    in_order = h.in_order;
    quiet = h.quiet;
    answered = inl refl;
    bounded = omega (arith, h.due);
    asked = h.asked;
  }
  answered-IsServed vs c (ok text) r taken h =
      let one = responses-append c.sent (Sent.response r ∷ []) in
      record {
        in_order =
            subst (λ ns. IsPart (ns ++ c.unread) vs) (sym (notes-response c.sent r)) (h.in_order);
        quiet = quiet-or (h.quiet) (notes-response c.sent r);
        answered = inr (omega (arith, h.due, one));
        bounded = omega (arith, h.due, one);
        asked = h.asked;
      }

  -- A line is heard, and what its operation broadcasts is in the channel.
  heard :
      (l : Result String) (m : Machine) (b : Bool) (c : Connection) (vs new : List Notification)
      → IsServed vs c
      → c.closed ≡ false
      → b ≡ asks l
      → IsHeard (vs ++ new) (record c {
        machine = m;
        unread = c.unread ++ new;
        enabled = c.enabled || b;
        received = c.received ++ (l ∷ []);
      })
  heard l m b c vs new h opened e = record {
    in_order =
        subst (λ l. IsPart l (vs ++ new)) (append_assoc (notes c.sent) c.unread new)
          (IsPart-append (notes c.sent ++ c.unread) vs new new (h.in_order) (IsPart-refl new));
    quiet = still-or (asks l || false) (any-append asks c.received (l ∷ [])) (h.quiet);
    due = due-of (h.answered) opened (length-snoc c.received l);
    asked =
        asked-of c.enabled b (any asks c.received) (asks l) _ (h.asked) e
          (any-append asks c.received (l ∷ []));
  }

  -- A notification is sent.
  notify-IsServed :
      (taken : Bool) (v : Notification) (rest vs : List Notification) (c : Connection)
      → IsServed vs c
      → c.closed ≡ false
      → c.enabled ≡ true
      → c.unread ≡ v ∷ rest
      → IsServed vs (notify wire taken v rest c)
  unfolding notify
  notify-IsServed taken v rest vs c h opened on e =
      let none_more = responses-append c.sent (Sent.notification v ∷ []) in
      let asked = on-asked (h.asked) on in
      record {
        in_order =
            subst (λ l. IsPart l vs)
              (ap (λ l. notes c.sent ++ l) e ∙ sym (notes-snoc c.sent v rest)) (h.in_order);
        quiet = inl asked;
        answered = inr (omega (arith, none_more, due-of (h.answered) opened refl));
        bounded = omega (arith, none_more, h.bounded);
        asked = inr asked;
      }

  -- More broadcasts, which the client has not got.
  more : (vs new : List Notification) (c : Connection) → IsServed vs c → IsServed (vs ++ new) c
  more vs new c h = record {
    in_order =
        subst (λ l. IsPart l (vs ++ new)) (append-nil (notes c.sent ++ c.unread))
          (IsPart-append (notes c.sent ++ c.unread) vs [] new (h.in_order) (IsPart-none new));
    quiet = h.quiet;
    answered = h.answered;
    bounded = h.bounded;
    asked = h.asked;
  }

  -- Steps that send nothing and read nothing.
  quiet_step :
      (vs ns : List Notification) (m : Machine) (b : Bool) (c : Connection)
      → IsServed vs c
      → IsPart (notes c.sent ++ ns) vs
      → (b ≡ c.closed) ⊎ (b ≡ true)
      → IsServed vs (record c { machine = m; unread = ns; closed = b })
  quiet_step vs ns m b c h part k = record {
    in_order = part;
    quiet = h.quiet;
    answered = closing k (h.answered);
    bounded = h.bounded;
    asked = h.asked;
  }

  step-IsServed :
      (vs new : List Notification) (c c' : Connection)
      → IsServed vs c
      → Step wire new c c'
      → IsServed (vs ++ new) c'
  unfolding handle_line respond
  step-IsServed vs _ _ _ h (line l taken c opened) =
      answered-IsServed _ _ (wire.to_string ((answer wire (message_of wire l) c.machine).1)) _ taken
        (heard l _ _ c vs _ h opened (answer-asking (message_of wire l) c.machine))
  step-IsServed vs _ _ _ h (ended taken c opened) =
      more vs [] _ (quiet_step vs c.unread c.machine true c h (h.in_order) (inr refl))
  step-IsServed vs _ _ _ h (takes taken v rest c opened on e) =
      more vs [] _ (notify-IsServed taken v rest vs c h opened on e)
  step-IsServed vs _ _ _ h (lagged lost kept c e) = more vs [] _ (
      quiet_step vs kept c.machine c.closed c h
        (IsPart-middle (notes c.sent) lost kept vs
          (subst (λ l. IsPart (notes c.sent ++ l) vs) e (h.in_order)))
        (inl refl))
  step-IsServed vs _ _ _ h (elsewhere m c) =
      quiet_step (vs ++ news c.machine m) (c.unread ++ news c.machine m) m c.closed c
        (more vs (news c.machine m) c h)
        (subst (λ l. IsPart l (vs ++ news c.machine m))
          (append_assoc (notes c.sent) c.unread (news c.machine m))
          (IsPart-append (notes c.sent ++ c.unread) vs _ _ (h.in_order)
            (IsPart-refl (news c.machine m))))
        (inl refl)

  -- Whatever a client sends, whatever the manager does meanwhile and whatever the channel loses:
  -- the notifications sent to the client are broadcasts since it connected, in their order and
  -- each at most once; none is sent, and they are not enabled, unless a line has asked for them;
  -- and there are never more responses than lines, and as many while the connection is open.
  pub Reach-IsServed :
      (m : Machine) (vs : List Notification) (c : Connection) → Reach wire m vs c → IsServed vs c
  Reach-IsServed m _ _ here = record {
    in_order = nothing;
    quiet = inr refl;
    answered = inr refl;
    bounded = omega (arith);
    asked = inl refl;
  }
  Reach-IsServed m _ _ (next vs new c c' r x) =
      step-IsServed vs new c c' (Reach-IsServed m vs c r) x
