-- ===== src/Manifest/Payload.antt =====
-- What a signature over the canonical payload commits to.
use qrx_node_suite.Prelude.{
  ◌≡◌, String, Option, none, some, List, [], ◌∷◌, ◌++◌, map, arith, All, codes, length,
  compare_codes, Ordering,
}
use mathlib.Core.List.{append_assoc}
use qrx_node_suite.Manifest.{
  ReleaseNotes, ComponentUpdate, Manifest, list_tokens, write_list, notes_body, notes_tokens,
  component_tokens, components_tokens, insert_entry, sort_entries, tokens, join, canonical_payload,
  decimal,
}
use qrx_node_suite.Manifest.Tokens.{
  NoNul, join-injective, codes-injective, decimal-injective, decimal-NoNul, unsigned,
  components_tokens_cut,
}

abbrev pub Clean : String → Type 0
Clean s = NoNul (codes s)

pub record CleanNotes (n : ReleaseNotes) : Type 0 where
  pub released_at : Clean n.released_at
  pub changes : All Clean n.changes
  pub breaking_changes : All Clean n.breaking_changes
  pub security_fixes : All Clean n.security_fixes
  pub required_qrx_version : Clean n.required_qrx_version
  pub required_adapter_version : Clean n.required_adapter_version
  pub min_suite_version : Clean n.min_suite_version

abbrev pub CleanOption : Option ReleaseNotes → Type 0
CleanOption none = Unit
CleanOption (some n) = CleanNotes n

abbrev pub CleanEntry : String × ComponentUpdate → Type 0
CleanEntry (name, c) =
    Clean name × Clean c.version × Clean c.url × Clean c.sha256 × CleanOption c.release_notes

-- No text that the payload covers holds a NUL.
pub record IsNulFree (m : Manifest) : Type 0 where
  pub channel : Clean m.channel
  pub suite_version : Clean m.suite_version
  pub released_at : Clean m.released_at
  pub components : All CleanEntry m.components

All-append : {A : Type 0} (P : A → Type 0) (xs ys : List A) → All P xs → All P ys → All P (xs ++ ys)
All-append P [] ys a b = b
All-append P (x ∷ xs) ys a b = (a.0, All-append P xs ys a.1 b)

list_tokens-clean : (ss : List String) → All Clean ss → All NoNul (list_tokens ss)
unfolding list_tokens
list_tokens-clean [] h = tt
list_tokens-clean (s ∷ ss) h = (h.0, list_tokens-clean ss h.1)

write_list-clean : (ss : List String) → All Clean ss → All NoNul (write_list ss)
unfolding write_list
write_list-clean ss h = (decimal-NoNul (length ss), list_tokens-clean ss h)

notes_body-clean : (n : ReleaseNotes) → CleanNotes n → All NoNul (notes_body n)
unfolding notes_body
notes_body-clean n h =
    All-append NoNul (write_list n.changes) _ (write_list-clean n.changes h.changes) (
      All-append NoNul (write_list n.breaking_changes) _
        (write_list-clean n.breaking_changes h.breaking_changes)
        (All-append NoNul (write_list n.security_fixes) _
          (write_list-clean n.security_fixes h.security_fixes)
          (h.required_qrx_version, (h.required_adapter_version, (h.min_suite_version, tt)))))

notes_tokens-clean : (o : Option ReleaseNotes) → CleanOption o → All NoNul (notes_tokens o)
unfolding notes_tokens
notes_tokens-clean none h = omega arith
notes_tokens-clean (some n) h = (omega arith, (h.released_at, notes_body-clean n h))

component_tokens-clean :
    (c : String × ComponentUpdate) → CleanEntry c → All NoNul (component_tokens c)
unfolding component_tokens
component_tokens-clean (n, c) h = (h.0, (h.1, (h.2, (h.3, notes_tokens-clean c.release_notes h.4))))

components_tokens-clean :
    (cs : List (String × ComponentUpdate)) → All CleanEntry cs → All NoNul (components_tokens cs)
unfolding components_tokens
components_tokens-clean [] h = tt
components_tokens-clean (c ∷ cs) h =
    All-append NoNul (component_tokens c) _ (component_tokens-clean c h.0)
      (components_tokens-clean cs h.1)

by_order :
    (P : String × ComponentUpdate → Type 0) (c d : String × ComponentUpdate)
    (ds : List (String × ComponentUpdate)) (o : Ordering)
    → P c
    → All P (d ∷ ds)
    → All P (insert_entry c ds)
    → All P (elim o [ Ordering.gt ↦ d ∷ insert_entry c ds | _ ↦ c ∷ d ∷ ds ])
by_order P c d ds Ordering.lt p a inner = (p, a)
by_order P c d ds Ordering.eq p a inner = (p, a)
by_order P c d ds Ordering.gt p a inner = (a.0, inner)

insert_entry-All :
    (P : String × ComponentUpdate → Type 0) (c : String × ComponentUpdate)
    (ds : List (String × ComponentUpdate))
    → P c
    → All P ds
    → All P (insert_entry c ds)
unfolding insert_entry
insert_entry-All P c [] p a = (p, tt)
insert_entry-All P c (d ∷ ds) p a =
    by_order P c d ds (compare_codes (codes c.0) (codes d.0)) p a (insert_entry-All P c ds p a.1)

sort_entries-All :
    (P : String × ComponentUpdate → Type 0) (cs : List (String × ComponentUpdate))
    → All P cs
    → All P (sort_entries cs)
unfolding sort_entries
sort_entries-All P [] a = tt
sort_entries-All P (c ∷ cs) a =
    insert_entry-All P c (sort_entries cs) a.0 (sort_entries-All P cs a.1)

tokens-clean : (m : Manifest) → IsNulFree m → All NoNul (tokens m)
unfolding tokens
tokens-clean m h = (
  decimal-NoNul m.manifest_version,
  (
    h.channel,
    (
      h.suite_version,
      (
        h.released_at,
        components_tokens-clean (sort_entries m.components)
            (sort_entries-All CleanEntry m.components h.components),
      ),
    ),
  ),
)

-- The fields that two manifests with one payload share.
pub record SameSigned (m n : Manifest) : Type 0 where
  pub manifest_version : m.manifest_version ≡ n.manifest_version
  pub channel : m.channel ≡ n.channel
  pub suite_version : m.suite_version ≡ n.suite_version
  pub released_at : m.released_at ≡ n.released_at
  pub components :
      map unsigned (sort_entries m.components) ≡ map unsigned (sort_entries n.components)

-- Two manifests without NUL that have one payload agree on everything but the artifact signatures:
-- versions, channel, date, and for each component its name, version, URL, checksum and notes.
pub canonical_payload-SameSigned :
    (m n : Manifest)
    → IsNulFree m
    → IsNulFree n
    → canonical_payload m ≡ canonical_payload n
    → SameSigned m n
unfolding canonical_payload tokens
canonical_payload-SameSigned m n a b h =
    let e : tokens m ≡ tokens n =
      join-injective (tokens m) (tokens n) (tokens-clean m a) (tokens-clean n b) h in
    let e1 : decimal m.manifest_version ≡ decimal n.manifest_version = cc in
    let e2 : codes m.channel ≡ codes n.channel = cc in
    let e3 : codes m.suite_version ≡ codes n.suite_version = cc in
    let e4 : codes m.released_at ≡ codes n.released_at = cc in
    let e5 : components_tokens (sort_entries m.components)
        ≡ components_tokens (sort_entries n.components) =
      cc in
    record {
      manifest_version = decimal-injective m.manifest_version n.manifest_version e1;
      channel = codes-injective m.channel n.channel e2;
      suite_version = codes-injective m.suite_version n.suite_version e3;
      released_at = codes-injective m.released_at n.released_at e4;
      components = components_tokens_cut (sort_entries m.components) (sort_entries n.components) e5;
    }

-- A NUL inside a text moves the boundary between two fields: a manifest for channel `a` and another
-- for channel `a` + NUL + `b` have one payload.
pub canonical_payload-collision :
    (m : Manifest) (a b c ab bc : String)
    → codes ab ≡ codes a ++ (0 ∷ codes b)
    → codes bc ≡ codes b ++ (0 ∷ codes c)
    → canonical_payload (record m { channel = ab; suite_version = c })
      ≡ canonical_payload (record m { channel = a; suite_version = bc })
unfolding canonical_payload tokens join
canonical_payload-collision m a b c ab bc p q = rw (p, q) (simp append_assoc)
