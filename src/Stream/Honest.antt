-- ===== src/Stream/Honest.antt =====
-- What `_open_upstream` of src/megabasterd_cli/streaming/server.py accepts, where the CDN is honest.
use mathlib.Core.Option.{some-injective}
use mathlib.Core.Path.{subst}
use mega_basterd_cli.Prelude.Slices.{slice}
use mega_basterd_cli.Prelude.{
  ℕ, ◌+◌, ◌-◌, ◌*◌, String, Bool, ◌||◌, Option, some, List, ◌++◌, ◌≡◌, refl, ap, inl, inr, drop,
  ◌==◌, Bool-cases, Result, ok, err,
}
use mega_basterd_cli.State.Hex.{Bytes}
use mega_basterd_cli.Crypto.Primitives.{Primitives}
use mega_basterd_cli.Proxy.{ProxySelector, Selected, select}
use mega_basterd_cli.RangeReply.{Headers, RangeNotHonored, validate_range_response}
use mega_basterd_cli.Stream.Serve.{Reply, lost, answered}
use mega_basterd_cli.Transfer.Fetch.{is_expired}
use mega_basterd_cli.Stream.Pumped.{IsBytewise, join}
use mega_basterd_cli.Stream.Serve.{
  Source, Upstream, Ints, Opened, take_checked, take_answer, last_reply, last_proxy, last_attempt,
  first_reply, first_proxy, open_upstream,
}

-- AES in counter mode is bytewise, and its counter counts blocks of 16 bytes.
pub record IsRandomAccess (lib : Primitives) : Type 0 where
  pub bytewise : IsBytewise lib
  pub from_block :
      (key nonce bs : Bytes) (k : ℕ)
      → lib.ctr_decrypt key nonce k (drop (k * 16) bs)
        ≡ drop (k * 16) (lib.ctr_decrypt key nonce 0 bs)

module _ (lib : Primitives) (ints : Ints) (source : Source) (encrypted : Bytes) where
  abbrev pub contents : Bytes
  contents = lib.ctr_decrypt source.aes_key source.nonce 0 encrypted

  -- The body is the range of the encrypted file, or a first part of it.
  abbrev pub IsFrom : ℕ → ℕ → List Bytes → Type 0
  IsFrom start stop blocks =
      (rest : Bytes) × (slice start (stop + 1 - start) encrypted ≡ join blocks ++ rest)

  -- An answer that passes the check has such a body.
  abbrev pub IsHonest : Upstream → Type 0
  IsHonest up =
      (start stop status : ℕ) (headers : Headers) (blocks : List Bytes) (whole : Bool)
      → up.reply start stop ≡ answered status headers blocks whole
      → validate_range_response ints.of_length status headers start stop source.size ≡ ok tt
      → IsFrom start stop blocks

  abbrev pub OpensFrom : ℕ → ℕ → Opened → Type 0
  OpensFrom start stop o =
      (blocks : List Bytes) (whole : Bool) → o ≡ some (blocks, whole) → IsFrom start stop blocks

  take_checked-OpensFrom :
      (up : Upstream) (start stop : ℕ) (picked : Option String) (blocks : List Bytes) (whole : Bool)
      (r : Result RangeNotHonored (Unit {0})) (s : ProxySelector)
      → (r ≡ ok tt → IsFrom start stop blocks)
      → OpensFrom start stop (take_checked lib ints source up picked blocks whole r s).0
  unfolding take_checked
  take_checked-OpensFrom up start stop picked blocks whole (err e) s h = λ b w e. absurd (cc)
  take_checked-OpensFrom up start stop picked blocks whole (ok u) s h = λ b w e.
      subst (IsFrom start stop)
        (ap (λ (p : List Bytes × Bool). p.0) (some-injective (blocks, whole) (b, w) e)) (h refl)

  module _ (start stop : ℕ) where
    take_answer-OpensFrom :
        (up : Upstream) (picked : Option String) (status : ℕ) (headers : Headers)
        (blocks : List Bytes) (whole : Bool) (s : ProxySelector)
        → IsHonest up
        → up.reply start stop ≡ answered status headers blocks whole
        → OpensFrom start stop
            (take_answer lib ints source up start stop picked status headers blocks whole s).0
    unfolding take_answer
    take_answer-OpensFrom up picked status headers blocks whole s h e =
        elim (Bool-cases (status == 200 || status == 206)) [
          | inr other ↦ simp other (λ b w e. absurd (cc))
          | inl good ↦ simp good (
              take_checked-OpensFrom up start stop picked blocks whole _ s
                (h start stop status headers blocks whole e))
        ]

    last_reply-OpensFrom :
        (up : Upstream) (picked : Option String) (reply : Reply) (s : ProxySelector)
        → IsHonest up
        → up.reply start stop ≡ reply
        → OpensFrom start stop (last_reply lib ints source up start stop picked reply s).0
    unfolding last_reply
    last_reply-OpensFrom up picked lost s h e = λ b w e. absurd (cc)
    last_reply-OpensFrom up picked (answered status headers blocks whole) s h e =
        take_answer-OpensFrom up picked status headers blocks whole s h e

    last_proxy-OpensFrom :
        (up : Upstream) (chosen : Selected) (s : ProxySelector)
        → IsHonest up
        → OpensFrom start stop (last_proxy lib ints source up start stop chosen s).0
    unfolding last_proxy
    last_proxy-OpensFrom up (err e) s h = λ b w e. absurd (cc)
    last_proxy-OpensFrom up (ok (proxies, picked)) s h =
        last_reply-OpensFrom up picked (up.reply start stop) s h refl

    first_reply-OpensFrom :
        (up next : Upstream) (picked : Option String) (reply : Reply) (s : ProxySelector)
        → IsHonest up
        → IsHonest next
        → up.reply start stop ≡ reply
        → OpensFrom start stop (first_reply lib ints source up next start stop picked reply s).0
    unfolding first_reply last_attempt
    first_reply-OpensFrom up next picked lost s h n e = λ b w e. absurd (cc)
    first_reply-OpensFrom up next picked (answered status headers blocks whole) s h n e =
        elim (Bool-cases (is_expired status)) [
          | inr valid ↦
              simp valid (take_answer-OpensFrom up picked status headers blocks whole s h e)
          | inl expired ↦ elim (Bool-cases up.refreshes) [
            | inr fails ↦ simp (expired, fails) (λ b w e. absurd (cc))
            | inl fresh ↦
                simp (expired, fresh)
                  (last_proxy-OpensFrom next (select next.moment s).0 (select next.moment s).1 n)
          ]
        ]

    first_proxy-OpensFrom :
        (up next : Upstream) (chosen : Selected) (s : ProxySelector)
        → IsHonest up
        → IsHonest next
        → OpensFrom start stop (first_proxy lib ints source up next start stop chosen s).0
    unfolding first_proxy
    first_proxy-OpensFrom up next (err e) s h n = λ b w e. absurd (cc)
    first_proxy-OpensFrom up next (ok (proxies, picked)) s h n =
        first_reply-OpensFrom up next picked (up.reply start stop) s h n refl

    pub open_upstream-OpensFrom :
        (up next : Upstream) (s : ProxySelector)
        → IsHonest up
        → IsHonest next
        → OpensFrom start stop (open_upstream lib ints source up next start stop s).0
    unfolding open_upstream
    open_upstream-OpensFrom up next s h n =
        first_proxy-OpensFrom up next (select up.moment s).0 (select up.moment s).1 h n
