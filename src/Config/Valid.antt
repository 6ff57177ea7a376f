-- ===== src/Config/Valid.antt =====
-- What a configuration must be to pass the validation.
use h3llo.Base.{
  ◌<◌, ◌≤◌, List, [], ◌∷◌, ◌++◌, Option, none, some, Bool, true, false, String, str_eq, eq_iff, ◌≡◌,
  ◌≢◌, ◌↔◌, refl, subst, if◌then◌else◌, map, All, Memᴰ, arith, iff_trans, iff_both, iff_not,
  false_iff, pushed_unless,
}
use h3llo.Base.Text.{trim, byte_len}
use mathlib.Core.List.Memᴰ.{head, tail}
use h3llo.Config.{Config, LocalH3, Tuning, Peer, PeerTransport}
use h3llo.Config.Validation.{
  ValidationError, field_empty, field_has_whitespace, Errors, is_blank, check_not_empty,
  check_trimmed, check_some, is_nil,
}

-- No white space at the ends; and a name, which is not blank either.
abbrev pub IsTrimmed : String → Type 0
IsTrimmed s = s ≡ trim s

abbrev pub IsName : String → Type 0
IsName s = (trim s ≢ "") × IsTrimmed s

abbrev pub OnSome : (String → Type 0) → Option String → Type 0
OnSome P none = Unit
OnSome P (some s) = P s

-- No value stands twice.
abbrev pub IsDistinct : {A : Type 0} → List A → Type 0
IsDistinct [] = Unit
IsDistinct (x ∷ xs) = (¬ Memᴰ x xs) × IsDistinct xs

abbrev pub IsValidTransport : PeerTransport → Type 0
IsValidTransport (PeerTransport.bare b) = Unit
IsValidTransport (PeerTransport.h3 h) =
    (12 ≤ byte_len h.token)
    × (IsTrimmed h.token × (OnSome IsName h.sni × OnSome IsTrimmed h.bindif))

abbrev pub IsValidPeer : {Net : Type 0} → Peer Net → Type 0
IsValidPeer peer =
    IsName peer.id
    × (IsValidTransport peer.transport
        × ((peer.tun.allowed_ips ≢ []) × IsDistinct peer.tun.allowed_ips))

abbrev pub token_part : PeerTransport → List String
token_part (PeerTransport.bare b) = []
token_part (PeerTransport.h3 h) = h.token ∷ []

abbrev pub tokens_of : {Net : Type 0} → List (Peer Net) → List String
tokens_of [] = []
tokens_of (peer ∷ peers) = token_part peer.transport ++ tokens_of peers

-- Each peer is valid, no two have the same id, and no two have the same token.
abbrev pub ArePeersValid : {Net : Type 0} → List (Peer Net) → Type 0
ArePeersValid peers =
    All IsValidPeer peers × (IsDistinct (map (λ p. p.id) peers) × IsDistinct (tokens_of peers))

-- No value stands twice or was seen before.
abbrev pub IsFresh : {A : Type 0} → List A → List A → Type 0
IsFresh seen [] = Unit
IsFresh seen (x ∷ xs) = (¬ Memᴰ x seen) × IsFresh (x ∷ seen) xs

pub IsFresh-apart :
    {A : Type 0} (seen xs : List A)
    → IsFresh seen xs ↔ (((x : A) → Memᴰ x seen → ¬ Memᴰ x xs) × IsDistinct xs)
IsFresh-apart seen [] = (λ h. (λ x m n. elim n [ ], tt), λ h. tt)
IsFresh-apart seen (x ∷ xs) =
    let ih = IsFresh-apart (x ∷ seen) xs in
    (
      λ h.
          let r = ih.0 h.1 in
          (
            λ y m n. elim n [
              | head same ↦ h.0 (subst (λ z. Memᴰ z seen) same m)
              | tail below ↦ r.0 y (tail m) below
            ],
            (λ n. r.0 x (head refl) n, r.1),
          ),
      λ h. (
        λ m. h.0 x m (head refl),
        ih.1 (
          λ y m n. elim m [
            | head same ↦ h.1.0 (subst (λ z. Memᴰ z xs) same n)
            | tail older ↦ h.0 y older (tail n)
          ],
          h.1.1,
        ),
      ),
    )

pub IsFresh-IsDistinct : {A : Type 0} (xs : List A) → IsFresh [] xs ↔ IsDistinct xs
IsFresh-IsDistinct xs = iff_trans (IsFresh-apart [] xs) (λ h. h.1, λ h. (λ x m n. elim m [ ], h))

-- The checks, one by one.
pub blank_iff : (s : String) → (is_blank s ≡ false) ↔ (trim s ≢ "")
blank_iff s = iff_trans (false_iff (is_blank s)) (iff_not (eq_iff (trim s) ""))

pub check_trimmed-IsTrimmed :
    (s ctx field : String) → (check_trimmed s ctx field false ≡ []) ↔ IsTrimmed s
check_trimmed-IsTrimmed s ctx field =
    iff_trans (pushed_unless (str_eq s (trim s)) (field_has_whitespace ctx field))
      (eq_iff s (trim s))

pub name_if :
    (b : Bool) (e : ValidationError) (rest : Errors)
    → ((if b then e ∷ [] else rest) ≡ []) ↔ ((b ≡ false) × (rest ≡ []))
name_if true e rest = (λ h. cc, λ h. ground arith)
name_if false e rest = (λ h. (refl, h), λ h. h.1)

pub check_trimmed-IsName : (s ctx field : String) → (check_trimmed s ctx field true ≡ []) ↔ IsName s
check_trimmed-IsName s ctx field =
    iff_trans (name_if (is_blank s) (field_empty ctx field) (check_trimmed s ctx field false))
      (iff_both (blank_iff s) (check_trimmed-IsTrimmed s ctx field))

pub some_iff :
    (check : String → Errors) (P : String → Type 0)
    → ((s : String) → (check s ≡ []) ↔ P s)
    → (o : Option String) → (check_some check o ≡ []) ↔ OnSome P o
some_iff check P f none = (λ h. tt, λ h. refl)
some_iff check P f (some s) = f s

pub not_empty_iff :
    {A : Type 0} (xs : List A) (ctx field : String)
    → (check_not_empty (is_nil xs) ctx field ≡ []) ↔ (xs ≢ [])
not_empty_iff [] ctx field = (λ h. cc, λ h. absurd (h refl))
not_empty_iff (x ∷ xs) ctx field = (λ h e. cc, λ h. refl)

-- The queue depth and the eleven intervals are positive, the keepalive is below the idle timeout, the
-- congestion control is one of five, and the bounds of the backoff are in order.
abbrev pub IsValidTuning : Tuning → Type 0
IsValidTuning t =
    (0 < t.io.packet_queue_depth)
    × (((0 < t.reconcile_interval)
          × ((0 < t.reconnect_backoff_min)
              × ((0 < t.reconnect_backoff_max)
                  × ((0 < t.io.metrics_push_interval)
                      × ((0 < t.metrics_log_interval)
                          × ((0 < t.dns.dns_query_timeout)
                              × ((0 < t.dns.dns_refresh_interval)
                                  × ((0 < t.dns.dns_query_interval)
                                      × ((0 < t.h3.h3_handshake_timeout)
                                          × ((0 < t.h3.h3_max_idle_timeout)
                                              × ((0 < t.h3.h3_keepalive_interval) × Unit)))))))))))
        × ((t.h3.h3_keepalive_interval < t.h3.h3_max_idle_timeout)
            × (Memᴰ t.h3.h3_cc_algorithm ("reno" ∷ "cubic" ∷ "bbr" ∷ "bbr2" ∷ "none" ∷ [])
                × (t.reconnect_backoff_min ≤ t.reconnect_backoff_max))))

abbrev pub IsValidLocalH3 : Option LocalH3 → Type 0
IsValidLocalH3 none = Unit
IsValidLocalH3 (some h) = IsName h.cert × IsName h.key

abbrev pub IsValidConfig : {Net : Type 0} → Config Net → Type 0
IsValidConfig c =
    IsValidTuning c.tuning
    × (IsValidLocalH3 c.locals.h3 × ((c.locals.tun.addrs ≢ []) × ArePeersValid c.peers))
