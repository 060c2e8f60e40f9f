-- ===== src/Database/Replayed.antt =====
-- `persist_event` (src/db.rs) keeps the distance tables in step with the stored locations.
use gt06n_tcp_server.Prelude.{
  ℕ, ◌≡◌, ◌≢◌, ◌<◌, inl, inr, ◌⊎◌, sym, ap, subst, ◌∙◌, arith, List, [], ◌∷◌, ◌++◌, true, false,
  Bool-cases, All, none,
}
use gt06n_tcp_server.Float.{Float64}
use gt06n_tcp_server.Chrono.{Chrono}
use gt06n_tcp_server.Protocol.Framing.{bytes_eq}
use gt06n_tcp_server.Tracking.{LocationRow, OdometerRow, DailyRow, bytes_eq_iff}
use gt06n_tcp_server.Distance.{Point, Store, point_of, points_of, insert_point}
use gt06n_tcp_server.Distance.Ledger.{
  Ledger, ledger, account, replay, replay-append, ledger_in, processed, ledger_in-processed,
  ledger_in-processed_ne, rows_kept,
}
use gt06n_tcp_server.Distance.Backfill.{history, IsReplayed}

module _ (fl : Float64) (chrono : Chrono) (P N : Type 0) where
  open fl use {F}
  open chrono use {Instant, Date}

  -- A point behind all others stays there.
  insert_point-append :
      (x p : Point fl chrono) (ys : List (Point fl chrono))
      → x.id < p.id
      → insert_point fl chrono x (ys ++ (p ∷ [])) ≡ insert_point fl chrono x ys ++ (p ∷ [])
  unfolding insert_point
  insert_point-append x p [] h = ground arith
  insert_point-append x p (y ∷ ys) h = ground (arith, insert_point-append x p ys h)

  abbrev Row : Type 0
  Row = LocationRow Instant P F N

  -- The history with a newer location at its end.
  points_of-append :
      (rows : List Row) (row : Row)
      → All (λ r. r.id < row.id) rows
      → points_of fl chrono P N row.imei (rows ++ (row ∷ []))
        ≡ points_of fl chrono P N row.imei rows ++ (point_of fl chrono P N row ∷ [])
  unfolding points_of point_of insert_point
  points_of-append [] row h = ground (arith, bytes_eq_iff row.imei row.imei)
  points_of-append (r ∷ rows) row (newer, h) = ground (
    arith,
    points_of-append rows row h,
    insert_point-append (point_of fl chrono P N r) (point_of fl chrono P N row)
        (points_of fl chrono P N row.imei rows) newer,
  )

  points_of-append_ne :
      (imei : List ℕ) (rows : List Row) (row : Row)
      → imei ≢ row.imei
      → points_of fl chrono P N imei (rows ++ (row ∷ [])) ≡ points_of fl chrono P N imei rows
  unfolding points_of
  points_of-append_ne imei [] row ne = ground (arith, bytes_eq_iff row.imei imei)
  points_of-append_ne imei (r ∷ rows) row ne = ground (arith, points_of-append_ne imei rows row ne)

  abbrev S : Type 0
  S = Store fl chrono P N

  -- The tables that the distances and their history stand in.
  abbrev pub part : S → List (OdometerRow Instant F) × List (DailyRow Date F) × List Row
  part t = (t.odometers, t.daily, t.locations)

  pub part-IsReplayed :
      (t t' : S) → part t' ≡ part t → IsReplayed fl chrono P N t → IsReplayed fl chrono P N t'
  part-IsReplayed t t' same r imei =
      ap (λ x. ledger fl chrono imei x.0 x.1) same
      ∙ r imei
      ∙ ap (λ x. replay fl chrono imei (points_of fl chrono P N imei x.2) (none, [])) (sym same)

  -- A newer location, accounted for, keeps the tables in step.
  pub appended-IsReplayed :
      (t u : S) (row : Row)
      → All (λ r. r.id < row.id) t.locations
      → u ≡ record t { locations = t.locations ++ (row ∷ []) }
      → IsReplayed fl chrono P N t
      → IsReplayed fl chrono P N (processed fl chrono P N row.imei (point_of fl chrono P N row) u)
  unfolding replay
  appended-IsReplayed t u row newer is_u r imei = at (Bool-cases (bytes_eq row.imei imei))
    where
      p : Point fl chrono
      p = point_of fl chrono P N row

      after : S
      after = processed fl chrono P N row.imei p u

      ledger_u :
          (imei : List ℕ)
          → ledger_in fl chrono P N imei u
            ≡ replay fl chrono imei (points_of fl chrono P N imei t.locations) (none, [])
      ledger_u imei = ap (λ (x : S). ledger_in fl chrono P N imei x) is_u ∙ r imei

      locations : after.locations ≡ t.locations ++ (row ∷ [])
      locations = (rows_kept fl chrono P N row.imei p u).0 ∙ ap (λ (x : S). x.locations) is_u

      replayed : (imei : List ℕ) → List (Point fl chrono) → Ledger fl chrono
      replayed imei ps = replay fl chrono imei ps (none, [])

      own : ledger_in fl chrono P N row.imei after ≡ history fl chrono P N row.imei after
      own =
          ledger_in-processed fl chrono P N row.imei p u
          ∙ ap (account fl chrono row.imei p) (ledger_u row.imei)
          ∙ sym (
              replay-append fl chrono row.imei (points_of fl chrono P N row.imei t.locations)
                (p ∷ []) (none, []))
          ∙ sym (
              ap (replayed row.imei) (
                ap (points_of fl chrono P N row.imei) locations
                ∙ points_of-append t.locations row newer))

      at :
          (bytes_eq row.imei imei ≡ true) ⊎ (bytes_eq row.imei imei ≡ false)
          → ledger_in fl chrono P N imei after ≡ history fl chrono P N imei after
      at (inl eq) =
          subst (λ i. ledger_in fl chrono P N i after ≡ history fl chrono P N i after)
            (ground (arith, eq, bytes_eq_iff row.imei imei)) own
      at (inr other) =
          let ne : imei ≢ row.imei =
            λ same. ground (arith, other, same, bytes_eq_iff row.imei imei) in
          ledger_in-processed_ne fl chrono P N imei row.imei p u ne
          ∙ ledger_u imei
          ∙ sym (
              ap (replayed imei) (
                ap (points_of fl chrono P N imei) locations
                ∙ points_of-append_ne imei t.locations row ne))
