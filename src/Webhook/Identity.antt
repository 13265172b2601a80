-- ===== src/Webhook/Identity.antt =====
-- internal/publichook/handler.go: the identity that a webhook is stored under.
use Prim.Native.Nat.{◌^◌}
use hookfly.Base.{
  ◌<◌, String, List, [], ◌∷◌, ◌≡◌, refl, sym, ap, ◌∙◌, length, All, str_eq, if◌then◌else◌, arith,
}
use hookfly.Domain.{Bytes, CanonicalEvent}
use hookfly.Webhook.Provider.{IncomingEvent, Library}
use hookfly.Webhook.Framing.{
  write_identity_bytes, write_all, read_component, read_component-write_identity_bytes,
}

module _ (lib : Library) where
  -- What follows the provider and the source: the delivery ID, or else the event and the body.
  abbrev own_components : CanonicalEvent → IncomingEvent → Bytes → List Bytes
  own_components event incoming body =
      if str_eq incoming.delivery_id ""
      then lib.bytes "fallback"
        ∷ lib.bytes incoming.repository_external_id
        ∷ lib.bytes event.event
        ∷ lib.bytes event.ref
        ∷ lib.bytes event.status
        ∷ lib.bytes event.revision
        ∷ lib.bytes event.external_id
        ∷ lib.bytes event.trigger
        ∷ body
        ∷ []
      else lib.bytes "delivery" ∷ lib.bytes incoming.delivery_id ∷ []

  unfoldable pub identity_components : CanonicalEvent → IncomingEvent → Bytes → List Bytes
  identity_components event incoming body =
      lib.bytes event.provider ∷ lib.bytes event.source ∷ own_components event incoming body

  unfoldable pub delivery_identity : CanonicalEvent → IncomingEvent → Bytes → String
  delivery_identity event incoming body =
      lib.encode_hex (lib.sha256 (write_all (identity_components event incoming body)))

-- The lengths that the framing can write.
abbrev pub AreShort : List Bytes → Type 0
AreShort vs = All (λ v. length v < 2 ^ 64) vs

write_all_inj :
    (xs ys : List Bytes) → AreShort xs → AreShort ys → write_all xs ≡ write_all ys → xs ≡ ys
unfolding write_all write_identity_bytes
write_all_inj [] [] a b h = refl
write_all_inj [] (y ∷ ys) a b h = absurd (ground arith)
write_all_inj (x ∷ xs) [] a b h = absurd (ground arith)
write_all_inj (x ∷ xs) (y ∷ ys) a b h =
    let p =
      sym (read_component-write_identity_bytes x (write_all xs) a.0)
      ∙ ap read_component h
      ∙ read_component-write_identity_bytes y (write_all ys) b.0 in
    cons_eq (ap (λ (q : Bytes × Bytes). q.0) p)
      (write_all_inj xs ys a.1 b.1 (ap (λ (q : Bytes × Bytes). q.1) p))
  where
    cons_eq : {x y : Bytes} {xs ys : List Bytes} → x ≡ y → xs ≡ ys → x ∷ xs ≡ y ∷ ys
    cons_eq p q i = p i ∷ q i

-- Where neither the hash nor its hexadecimal form confuses the two, two webhooks have one identity only
-- if their components agree, in number, in order and byte for byte.
pub delivery_identity-identity_components :
    (lib : Library) (e f : CanonicalEvent) (i j : IncomingEvent) (b c : Bytes)
    → AreShort (identity_components lib e i b)
    → AreShort (identity_components lib f j c)
    → (lib.encode_hex (lib.sha256 (write_all (identity_components lib e i b)))
          ≡ lib.encode_hex (lib.sha256 (write_all (identity_components lib f j c)))
        → lib.sha256 (write_all (identity_components lib e i b))
          ≡ lib.sha256 (write_all (identity_components lib f j c)))
    → (lib.sha256 (write_all (identity_components lib e i b))
          ≡ lib.sha256 (write_all (identity_components lib f j c))
        → write_all (identity_components lib e i b) ≡ write_all (identity_components lib f j c))
    → delivery_identity lib e i b ≡ delivery_identity lib f j c
    → identity_components lib e i b ≡ identity_components lib f j c
unfolding delivery_identity
delivery_identity-identity_components lib e f i j b c short short' hex hash h =
    write_all_inj (identity_components lib e i b) (identity_components lib f j c) short short'
      (hash (hex h))
