-- ===== src/Consent/Served.antt =====
-- What the gateway reads of the identity map after a grant.
use beherouter.Prelude.{
  ℕ, String, ◌≡◌, refl, ap, sym, false, Option, some, [], ◌∷◌, Dict, lookup, put, is_empty, ◌===◌,
  eq_refl, arith, lookup-put, Bool-cases, Option-cases, inl, inr, subst,
}
use beherouter.Data.{Value, str, obj, of_dict}
use beherouter.Errors.{Result, ok}
use beherouter.Identity.{Host}
use beherouter.Identity.SecretMap.{SecretMap, Stamp, same, shown, entry_at, credentials_for, load}
use beherouter.Registry.{RegistryEntry}
use beherouter.Consent.Disk.{Toml, File, World, done}
use beherouter.Consent.Writer.{Process, put_all, table_at}
use beherouter.Consent.Atomic.{written}
use beherouter.Consent.Format.{
  IsToml, Holds, holds, to_dict-of_dict, of_dict-Holds, Holds-put, Holds-put_all, Holds-table_at,
}
use beherouter.Consent.Grant.{Setting, Options, Granted, grant, granted_of, values_of}
use beherouter.Consent.Kept.{doc_of, doc_of-Holds, Rewritten, with_values}
use beherouter.Consent.Stored.{IsGrant, grant-IsGrant}
use beherouter.Consent.Values.{
  AreUnique, AreUnique-values_of, lookup-put_all, IsGiven, values_of-IsGiven,
}

lookup-shown :
    (host : Host) (n : String) (d : Dict Value) (v : String)
    → ((t : String) → host.show (str t) ≡ t)
    → lookup n d ≡ some (str v)
    → lookup n (shown host d) ≡ some v
lookup-shown host n [] v show e = cc
lookup-shown host n ((k, x) ∷ d) v show e = elim (Bool-cases (k === n)) [
  | inl y ↦ rw y (ground (arith, e, y, show v))
  | inr y ↦ rw y (lookup-shown host n d v show (ground (arith, e, y)))
]

abbrev read_entry : Host → String → Dict Value → Result (Dict String)
read_entry host key d = entry_at host (lookup key d)

-- A cache that has not seen the stamp of a file reads it.
credentials_for-fresh :
    (host : Host) (key : String) (stamp : Stamp) (d : Dict Value) (m : SecretMap)
    → same m.stamp stamp ≡ false
    → (credentials_for host key (ok stamp) (ok d) m).0 ≡ entry_at host (lookup key d)
unfolding credentials_for load
credentials_for-fresh host key stamp d m h = rw (h, credentials_for) refl

entry_at-table :
    (host : Host) (n v : String) (table : Dict Value)
    → ((t : String) → host.show (str t) ≡ t)
    → lookup n table ≡ some (str v)
    → (creds : Dict String) × (entry_at host (some (obj (of_dict table))) ≡ ok creds)
      × (lookup n creds ≡ some v)
entry_at-table host n v [] show e = cc
entry_at-table host n v (x ∷ table) show e = (
  shown host (x ∷ table),
  rw (to_dict-of_dict table) refl,
  lookup-shown host n (x ∷ table) v show e,
)

module _ {T : Toml} (L : IsToml T) (host : Host) where
  -- What the map's new file tells of a subject's granted values, and of all others.
  pub record IsServed (subject : String) (values : Dict String) (old : Option (File T))
      (w' : World T) : Type 0 where
    pub file : File T
    pub placed : w'.map ≡ some file
    pub private : file.mode ≡ 0o600
    pub served :
        (n v : String)
        → lookup n values ≡ some v
        → (stamp : Stamp) (m : SecretMap) → same m.stamp stamp ≡ false
        → (creds : Dict String) × ((credentials_for host subject (ok stamp) (T.loads file.text) m).0
            ≡ ok creds)
          × (lookup n creds ≡ some v)
    pub others :
        (k : String)
        → (subject === k) ≡ false
        → (stamp : Stamp) (m : SecretMap) → same m.stamp stamp ≡ false
        → (doc : Dict Value) × (doc_of old ≡ ok doc)
          × ((credentials_for host k (ok stamp) (T.loads file.text) m).0
              ≡ (credentials_for host k (ok stamp) (ok doc) m).0)

  -- The new document, if the subject's entry is a table.
  with_values-eq_some :
      (subject : String) (values : Dict String) (doc d : Dict Value)
      → with_values subject values doc ≡ some d
      → (table : Dict Value) × (table_at (lookup subject doc) ≡ some table)
        × (d ≡ put subject (obj (of_dict (put_all values table))) doc)
  with_values-eq_some subject values doc d h = elim (Option-cases (table_at (lookup subject doc))) [
    | inl e ↦ absurd (ground (arith, e, h))
    | inr (table, e) ↦ (table, e, ground (arith, e, h))
  ]

  module _ (show : (t : String) → host.show (str t) ≡ t) (subject : String) (values : Dict String)
      (unique : AreUnique values) where
    entry-served :
        (doc table : Dict Value) (n v : String)
        → lookup n values ≡ some v
        → (creds : Dict String) × (read_entry host subject
              (put subject (obj (of_dict (put_all values table))) doc)
            ≡ ok creds)
          × (lookup n creds ≡ some v)
    entry-served doc table n v e =
        rw (lookup-put subject subject (obj (of_dict (put_all values table))) doc, eq_refl subject)
          (entry_at-table host n v (put_all values table) show
            (rw (lookup-put_all n values table unique, e) refl))

    rewritten-IsServed :
        (p : Process) (w w' : World T)
        → Rewritten p (with_values subject values) w w'
        → IsServed subject values w.map w'
    rewritten-IsServed p w w' (doc, d, e, n, q) =
        let (table, t, c) = with_values-eq_some subject values doc d n in
        let held : Holds doc = doc_of-Holds L w.map doc e in
        let new : Holds d =
          subst (λ x. Holds x) (sym c)
            (Holds-put subject (obj (of_dict (put_all values table))) doc held (
              unfold holds in
              of_dict-Holds (put_all values table)
                (Holds-put_all values table (Holds-table_at subject doc table held t)))) in
        record {
          file = written p (T.dumps d) w.map;
          placed = ap (λ u. u.map) q;
          private = refl;
          served = λ n v k stamp m fresh.
              subst
                (λ r.
                  (creds : Dict String) × ((credentials_for host subject (ok stamp) r m).0
                    ≡ ok creds)
                  × (lookup n creds ≡ some v))
                (sym (L.loads-dumps d new))
                (rw (credentials_for-fresh host subject stamp d m fresh)
                  (rw c (entry-served doc table n v k)));
          others = λ k other stamp m fresh. (
            doc,
            e,
            rw
                (
                  L.loads-dumps d new,
                  credentials_for-fresh host k stamp d m fresh,
                  credentials_for-fresh host k stamp doc m fresh,
                  c,
                  lookup-put subject k (obj (of_dict (put_all values table))) doc,
                  other,
                )
                refl,
          );
        }

module _ {T : Toml} (L : IsToml T) (s : Setting T) where
  -- If TOML documents are read as they were printed, a text is shown as itself and the state that
  -- was drawn is not empty: after a calendar grant that ends well the gateway's identity map,
  -- read afresh, gives the subject what was granted: the provider's refresh token, the client's id
  -- and its secret, if it is not empty, each under the name that the surface's map cites it by, if
  -- the map cites no other credential by that name. Every other caller gets what the file held for
  -- them, and only the owner can read the file.
  pub grant-IsServed :
      (e : RegistryEntry) (subject : String) (options : Options) (timeout : ℕ) (w w' : World T)
      (g : Granted)
      → is_empty s.drawn.state ≡ false
      → ((t : String) → s.host.show (str t) ≡ t)
      → grant s e subject options timeout w ≡ (done g, w')
      → (x : IsGrant s e subject options timeout w w' g) × IsServed L s.host subject
          (values_of x.target.names (granted_of x.token x.id x.secret) [])
          (s.meanwhile w.map)
          w'
        × IsGiven x.target.names
            (values_of x.target.names (granted_of x.token x.id x.secret) [])
            x.token
            x.id
            x.secret
  grant-IsServed e subject options timeout w w' g full show h =
      let x = grant-IsGrant s e subject options timeout w w' g full h in
      let values = values_of x.target.names (granted_of x.token x.id x.secret) [] in
      (
        x,
        subst (λ m. IsServed L s.host subject values (s.meanwhile m) w') x.same_map
            (rewritten-IsServed L s.host show subject values
              (AreUnique-values_of x.target.names (granted_of x.token x.id x.secret) [] tt)
              s.process (record x.exchanged_in { map = s.meanwhile x.exchanged_in.map }) w' x.kept),
        values_of-IsGiven x.target.names x.token x.id x.secret,
      )
