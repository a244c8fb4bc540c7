-- ===== src/Web/Sessions/Kept.antt =====
-- What the map of the sessions holds, whatever the threads do.
use cpp_client_rabbit_mq.Common.{
  sym, ◌≡◌, refl, Bool, true, false, not, Bytes, [], ◌∷◌, Option, some, none, bytes_eq,
  bytes_eq_iff, bytes_eq_refl, Bool-cases, inl, inr, if◌then◌else◌, arith,
}
use cpp_client_rabbit_mq.Web.Exchange.{has_symbol}
use cpp_client_rabbit_mq.Web.Exchange.Tracking.{bytes_eq-same, bytes_eq-other}
use cpp_client_rabbit_mq.Web.Session.{
  Session, Place, ◌⟶◌, start, enter, leave, connected, refused, await, read, read_failed, closed,
  close_failed, stop,
}
use cpp_client_rabbit_mq.Web.Session.Reachable.{is_work, is_finished}
use cpp_client_rabbit_mq.Web.Sessions.{Sessions, session_of, set_session, remove, symbols_of}

abbrev pub is_idle : Place → Bool
is_idle Place.idle = true
is_idle Place.testing = false
is_idle Place.connecting = false
is_idle Place.finished = false
is_idle (Place.receiving b) = false
is_idle (Place.reading b) = false

-- There is a session; it was told to end; it has ended, or was started, if there is one.
abbrev pub is_there : Option Session → Bool
is_there none = false
is_there (some s) = true

abbrev pub is_asked : Option Session → Bool
is_asked none = false
is_asked (some s) = s.terminate

abbrev pub is_done : Option Session → Bool
is_done none = true
is_done (some s) = is_finished s.place

-- The worker never undoes this.
abbrev pub Follows : Session → Session → Type 0
Follows s t =
    (is_idle s.place ≡ false → is_idle t.place ≡ false)
    × (s.terminate ≡ true → t.terminate ≡ true)
    × (is_finished s.place ≡ true → is_finished t.place ≡ true)

pub work-Follows : {s t : Session} (e : s ⟶ t) → is_work e ≡ true → Follows s t
work-Follows (start s p) h = cc
work-Follows (enter s p q) h = ground (arith, p)
work-Follows (leave s p q) h = ground (arith, p)
work-Follows (connected s p) h = ground (arith, p)
work-Follows (refused s p) h = ground (arith, p)
work-Follows (await s b p q) h = ground (arith, p)
work-Follows (read s b m p) h = ground (arith, p)
work-Follows (read_failed s b p) h = ground (arith, p)
work-Follows (closed s p q) h = ground (arith, p)
work-Follows (close_failed s p q) h = ground (arith, p)
work-Follows (stop s) h = cc

abbrev pub replaced : Bool → Session → Option Session → Option Session
replaced hit t none = none
replaced hit t (some s) = some (if hit then t else s)

pub session_of-set_session :
    (k j : Bytes) (t : Session) (ss : Sessions)
    → session_of j (set_session k t ss) ≡ replaced (bytes_eq k j) t (session_of j ss)
session_of-set_session k j t [] = refl
session_of-set_session k j t ((i, s) ∷ ss) =
    ground (arith, session_of-set_session k j t ss, bytes_eq-same i k j, bytes_eq-other i k j)

pub session_of-remove :
    (k j : Bytes) (ss : Sessions)
    → session_of j (remove k ss) ≡ (if bytes_eq k j then none else session_of j ss)
session_of-remove k j [] = ground arith
session_of-remove k j ((i, s) ∷ ss) =
    ground (arith, session_of-remove k j ss, bytes_eq-same i k j, bytes_eq-other i k j)

pub has_symbol-symbols_of :
    (j : Bytes) (ss : Sessions) → has_symbol j (symbols_of ss) ≡ is_there (session_of j ss)
has_symbol-symbols_of j [] = refl
has_symbol-symbols_of j ((i, s) ∷ ss) = ground (arith, has_symbol-symbols_of j ss)

abbrev pub is_started : Option Session → Bool
is_started none = true
is_started (some s) = not (is_idle s.place)

-- What a change of a session keeps of it.
abbrev pub Keeps : Option Session → Option Session → Type 0
Keeps o o' =
    (is_started o ≡ true → is_started o' ≡ true)
    × (is_there o ≡ true → is_there o' ≡ true)
    × (is_asked o ≡ true → is_asked o' ≡ true)
    × (is_done o ≡ true → is_done o' ≡ true)

module _ (k : Bytes) (s t : Session) (ss : Sessions) (found : session_of k ss ≡ some s) where
  pub session_of-same : (j : Bytes) → bytes_eq k j ≡ true → session_of j ss ≡ some s
  session_of-same j e = rw (sym ((bytes_eq_iff k j).0 e)) found

  pub set_session_at : session_of k (set_session k t ss) ≡ some t
  set_session_at = rw (session_of-set_session k k t ss, bytes_eq_refl k, found) refl

  pub set_session-Keeps :
      Follows s t → (j : Bytes) → Keeps (session_of j ss) (session_of j (set_session k t ss))
  set_session-Keeps f j = elim (Bool-cases (bytes_eq k j)) [
    | inl e ↦ rw (session_of-set_session k j t ss, e, session_of-same j e) (ground (arith, f))
    | inr e ↦ ground (arith, session_of-set_session k j t ss, e)
  ]
