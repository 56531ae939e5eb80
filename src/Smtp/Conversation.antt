-- ===== src/Smtp/Conversation.antt =====
-- Whole conversations of crates/camelmailer-smtp/src/server.rs (`drive_session`): every line of ASCII
-- text has its reply until the session is over.
use camelmailer.Base.{
  ℕ, suc, ◌≤◌, ◌≡◌, ◌⊎◌, inl, inr, refl, Bool, true, false, not, ◌&&◌, Option, none, some, List, [],
  ◌∷◌, All, ltb, if_both, is_some, length, ◌>>=◌, Yields, arith,
}
use camelmailer.Text.{Text, trim_start}
use camelmailer.Text.Laws.{is_ascii, all-trim_start, split_at_byte_ascii}
use camelmailer.Smtp.Types.{is_rcpt_to_received, Reply, Session, SessionConfig, Conn, Moment}
use camelmailer.Smtp.Env.{Env}
use camelmailer.Smtp.Basic.{new}
use camelmailer.Smtp.Handle.{handle}
use camelmailer.Smtp.Invariant.{IsConsistent}
use camelmailer.Smtp.Invariant.Handle.{new-IsConsistent, handle-IsConsistent}
use camelmailer.Smtp.Total.Handle.{handle_total}
use camelmailer.Smtp.Drive.{
  SpfCheck, is_data_command, head_is_data, evaluate_inbound_spf, set_received_spf, inbound_spf,
  Next, go_on, upgrade, over, before_line, next_of, asks_data, drive_line, drive,
}

is_data_command-ascii :
    (input : Text) → is_ascii input ≡ true → is_some (is_data_command input) ≡ true
unfolding is_data_command head_is_data
is_data_command-ascii input h =
    ground
      (arith, split_at_byte_ascii (trim_start input) 4, all-trim_start (λ c. ltb c 128) input h)

module _ {Db Q : Type 0} (env : Env Db Q) (spf : Option SpfCheck) where
  asks_data-ascii :
      (evaluated : Bool) (s : Session) (input : Text)
      → is_ascii input ≡ true
      → is_some (asks_data env spf evaluated s input) ≡ true
  unfolding asks_data
  asks_data-ascii evaluated s input h =
      if_both (λ (o : Option Bool). is_some o ≡ true) (not evaluated && is_rcpt_to_received s.state)
        (λ _. is_data_command-ascii input h) (λ _. refl)

  set_received_spf-IsConsistent :
      (o : Option Text) (s : Session) → IsConsistent s → IsConsistent (set_received_spf o s)
  unfolding set_received_spf
  set_received_spf-IsConsistent none s h = h
  set_received_spf-IsConsistent (some v) s h = ground arith

  before_line-IsConsistent :
      (evaluated is_data : Bool) (c : Conn Db Q)
      → IsConsistent c.session
      → IsConsistent (before_line env spf evaluated is_data c).0.session
  unfolding before_line evaluate_inbound_spf
  before_line-IsConsistent evaluated is_data c h =
      if_both (λ (r : Conn Db Q × Bool). IsConsistent r.0.session)
        (not evaluated && is_rcpt_to_received c.session.state && is_data) (λ _. checked spf)
        (λ _. h)
    where
      checked : (o : Option SpfCheck) → IsConsistent (evaluate_inbound_spf env.crates o c.session)
      checked none = h
      checked (some check) =
          set_received_spf-IsConsistent (inbound_spf env.crates check c.session) c.session h

  -- What a round gives: a consistent session, which is finished if the loop is over.
  IsRound : Conn Db Q × Bool × Reply × Next → Type 0
  IsRound r = IsConsistent r.0.session × (r.3 ≡ over → r.0.session.finished ≡ true)

  drive_line-IsRound :
      (m : Moment) (input : Text) (evaluated : Bool) (c : Conn Db Q)
      → is_ascii input ≡ true
      → IsConsistent c.session
      → Yields IsRound (drive_line env spf m input evaluated c)
  unfolding drive_line IsRound
  drive_line-IsRound m input evaluated c a h =
      asked (asks_data env spf evaluated c.session input)
        (asks_data-ascii evaluated c.session input a)
    where
      handled :
          (checked : Conn Db Q) (evaluated' : Bool)
          → IsConsistent checked.session
          → (o : Option (Conn Db Q × Reply)) → handle env m input checked ≡ o
          → is_some o ≡ true
          → Yields IsRound (
              o >>= λ r. some (
                record (r.0) { session = record (r.0.session) { start_tls = false } },
                evaluated',
                r.1,
                next_of env spf r.0.session,
              ))
      handled checked evaluated' k none e i = absurd (cc)
      handled checked evaluated' k (some (c', r)) e i =
          (cleared c'.session (handle-IsConsistent env m input checked c' r k e), ended c'.session)
        where
          cleared : (s : Session) → IsConsistent s → IsConsistent (record s { start_tls = false })
          cleared s q = ground arith

          ended : (s : Session) → next_of env spf s ≡ over → s.finished ≡ true
          ended s q = unfold next_of in ground arith

      asked :
          (o : Option Bool)
          → is_some o ≡ true
          → Yields IsRound (
              o >>= λ is_data.
              handle env m input (before_line env spf evaluated is_data c).0 >>= λ r. some (
                record (r.0) { session = record (r.0.session) { start_tls = false } },
                (before_line env spf evaluated is_data c).1,
                r.1,
                next_of env spf r.0.session,
              ))
      asked none i = absurd (cc)
      asked (some is_data) i =
          handled (before_line env spf evaluated is_data c).0
            (before_line env spf evaluated is_data c).1
            (before_line-IsConsistent evaluated is_data c h)
            (handle env m input (before_line env spf evaluated is_data c).0) refl
            (handle_total env m input (before_line env spf evaluated is_data c).0 a
              (before_line-IsConsistent evaluated is_data c h))

  -- After `n` lines the session is consistent, and each line has its reply, unless a TLS upgrade or the
  -- end of the session came first.
  abbrev pub IsAnswered : ℕ → Conn Db Q × List Reply × Bool → Type 0
  IsAnswered n r =
      IsConsistent r.0.session
      × (length r.1 ≤ n)
      × ((length r.1 ≡ n) ⊎ (r.2 ≡ true) ⊎ (r.0.session.finished ≡ true))

  drive-IsAnswered :
      (lines : List (Moment × Text)) (evaluated : Bool) (c : Conn Db Q)
      → All (λ l. is_ascii l.1 ≡ true) lines
      → IsConsistent c.session
      → Yields (IsAnswered (length lines)) (drive env spf lines evaluated c)
  unfolding drive IsRound
  drive-IsAnswered [] evaluated c a h = (h, omega arith, inl refl)
  drive-IsAnswered ((m, input) ∷ rest) evaluated c a h =
      rounds (drive_line env spf m input evaluated c) (drive_line-IsRound m input evaluated c a.0 h)
        (λ ev c' q. drive-IsAnswered rest ev c' a.1 q)
    where
      replied :
          (r : Reply) (o : Option (Conn Db Q × List Reply × Bool))
          → Yields (IsAnswered (length rest)) o
          → Yields
              (IsAnswered (suc (length rest)))
              (elim o [ none ↦ none | some (c'', rs, tls) ↦ some (c'', r ∷ rs, tls) ])
      replied r none k = k
      replied r (some (c'', rs, tls)) (k, l, inl e) = (k, omega arith, inl (omega arith))
      replied r (some (c'', rs, tls)) (k, l, inr e) = (k, omega arith, inr e)

      rounds :
          (o : Option (Conn Db Q × Bool × Reply × Next))
          → Yields IsRound o
          → ((ev : Bool) (c' : Conn Db Q)
              → IsConsistent c'.session
              → Yields (IsAnswered (length rest)) (drive env spf rest ev c'))
          → Yields (IsAnswered (suc (length rest))) (elim o [
            | none ↦ none
            | some (c', evaluated', r, upgrade) ↦ some (c', r ∷ [], true)
            | some (c', evaluated', r, over) ↦ some (c', r ∷ [], false)
            | some (c', evaluated', r, go_on) ↦ elim (drive env spf rest evaluated' c') [
              | none ↦ none
              | some (c'', rs, tls) ↦ some (c'', r ∷ rs, tls)
            ]
          ])
      rounds none k ih = k
      rounds (some (c', ev, r, upgrade)) k ih = (k.0, omega arith, inr (inl refl))
      rounds (some (c', ev, r, over)) k ih = (k.0, omega arith, inr (inr (k.1 refl)))
      rounds (some (c', ev, r, go_on)) k ih = replied r (drive env spf rest ev c') (ih ev c' k.0)

  -- A session that starts new gives one reply, which may be silence, to each line of ASCII text,
  -- until a TLS upgrade or the end of the session, whatever the store, the sink and the SPF check
  -- answer, and is consistent then.
  pub drive_answers :
      (config : SessionConfig) (trace_id : Text) (ip : Option Text) (db : Db) (queue : Q)
      (lines : List (Moment × Text))
      → All (λ l. is_ascii l.1 ≡ true) lines
      → Yields (IsAnswered (length lines)) (
          drive env spf lines false
            (record { session = new env.crates config trace_id ip; db = db; queue = queue }))
  drive_answers config trace_id ip db queue lines a =
      drive-IsAnswered lines false
        (record { session = new env.crates config trace_id ip; db = db; queue = queue }) a
        (new-IsConsistent env.crates config trace_id ip)
