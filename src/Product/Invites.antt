-- ===== src/Product/Invites.antt =====
-- apps/web/src/ProductPage.tsx: `bulkInvite`, the invitations of a file of lines.
use go_platform_starter.Prelude.{
  ℕ, zero, suc, ◌+◌, ◌≤◌, Bool, true, false, Option, List, [], ◌∷◌, ◌++◌, map, filter, not, take,
  length, ◌≡◌, ◌⊎◌, inl, inr, refl, ap, ◌∙◌, arith, length-take, length-map, if◌then◌else◌, Text,
  codes, text_same, is_empty, trim, split, decimal, All,
}
use go_platform_starter.Product.{Reply, done, failed, success, Page, Loads, load, show}

pub record Invitation : Type 0 where
  pub email : Text
  pub name : Text

-- The lines of the file: `split(/\r?\n/)`, then `trim`, which also takes off what is left of a line's end.
unfoldable pub lines_of : Text → List Text
unfolding trim
lines_of text = take 100 (filter (λ line. not (is_empty line)) (map trim (split b'\n' text)))

-- `const [email, name = "Invitation"] = …`
abbrev pub cells_invitation : List Text → Invitation
cells_invitation [] = record { email = []; name = codes "Invitation" }
cells_invitation (email ∷ []) = record { email = email; name = codes "Invitation" }
cells_invitation (email ∷ name ∷ cells) = record { email = email; name = name }

abbrev pub invitation_of : Text → Invitation
invitation_of line = cells_invitation (map trim (split b',' line))

-- What the loop has sent and counted, and whether a request threw.
pub record Sending : Type 0 where
  pub sent : List Invitation
  pub count : ℕ
  pub thrown : Bool

bool_cases : (b : Bool) → (b ≡ true) ⊎ (b ≡ false)
bool_cases true = inl refl
bool_cases false = inr refl

zero_add : (n : ℕ) → 0 + n ≡ n
zero_add n = omega arith

one_add : (n : ℕ) → 1 + n ≡ suc n
one_add n = omega arith

-- `lower` is `toLowerCase`; `reply` is what the server answers to an invitation.
module _ (lower : Text → Text) (reply : Invitation → Reply Unit) where
  abbrev pub is_header : ℕ → Text → Bool
  is_header zero line = text_same (lower (invitation_of line).email) (codes "email")
  is_header (suc index) line = false

  -- The loop from an index on, with what has been counted.
  abbrev pub send_from : ℕ → ℕ → List Text → Sending
  send_from index count [] = record { sent = []; count = count; thrown = false }
  send_from index count (line ∷ lines) =
      let skipped = send_from (suc index) count lines in
      let next = send_from (suc index) (suc count) lines in
      if is_header index line then skipped else elim (reply (invitation_of line)) [
        | done _ ↦ record next { sent = invitation_of line ∷ next.sent }
        | failed _ ↦ record { sent = invitation_of line ∷ []; count = count; thrown = true }
      ]

  unfoldable pub send : Text → Sending
  unfolding lines_of
  send text = send_from 0 0 (lines_of text)

  -- `bulkInvite` of a file's text; an error of `load` is thrown as well.
  abbrev pub bulk_invite : Text → Loads → Page → Page
  bulk_invite text r p =
      let s = send text in
      if s.thrown
      then p
      else (load r (show (success (decimal s.count ++ codes " invitations queued.")) p)).0

  -- The invitations that a file stands for.
  abbrev pub after_header : List Text → List Text
  after_header [] = []
  after_header (line ∷ lines) = if is_header 0 line then lines else line ∷ lines

  abbrev pub invitations : Text → List Invitation
  invitations text = map invitation_of (after_header (lines_of text))

  -- The server takes the invitation.
  abbrev pub IsTaken : Invitation → Type 0
  IsTaken i = reply i ≡ done tt

  IsRefused : Invitation → Type 0
  IsRefused i = (e : Option Text) × (reply i ≡ failed e)

  taken_step :
      (index count : ℕ) (line : Text) (lines : List Text)
      → IsTaken (invitation_of line)
      → is_header index line ≡ false
      → send_from index count (line ∷ lines) ≡ record (send_from (suc index) (suc count) lines) {
        sent = invitation_of line ∷ (send_from (suc index) (suc count) lines).sent;
      }
  taken_step index count line lines h k = rw (k, h) refl

  send_from_lem :
      (index count : ℕ) (lines : List Text)
      → All IsTaken (map invitation_of lines)
      → send_from (suc index) count lines
        ≡ record { sent = map invitation_of lines; count = count + length lines; thrown = false }
  send_from_lem index count [] h =
      let e : count ≡ count + 0 = omega arith in
      ap (λ n. record { sent = []; count = n; thrown = false }) e
  send_from_lem index count (line ∷ lines) h =
      let e : suc count + length lines ≡ count + suc (length lines) = omega arith in
      taken_step (suc index) count line lines h.0 refl
      ∙ rw (send_from_lem (suc index) (suc count) lines h.1) (
          ap
            (λ n. record {
              sent = invitation_of line ∷ map invitation_of lines;
              count = n;
              thrown = false;
            })
            e)

  -- Where the first of the lines is no header, it is sent like the others.
  send_from_start :
      (lines : List Text)
      → All IsTaken (map invitation_of (after_header lines))
      → send_from 0 0 lines ≡ record {
        sent = map invitation_of (after_header lines);
        count = length (after_header lines);
        thrown = false;
      }
  send_from_start [] h = refl
  send_from_start (line ∷ lines) h = elim (bool_cases (is_header 0 line)) [
    | inl yes_header ↦
        let all : All IsTaken (map invitation_of lines) = rw yes_header at h in
        let go = send_from_lem 0 0 lines all in
        rw (yes_header) (
          go
          ∙ ap (λ n. record { sent = map invitation_of lines; count = n; thrown = false })
              (zero_add (length lines)))
    | inr no_header ↦
        let all : All IsTaken (map invitation_of (line ∷ lines)) = rw no_header at h in
        let go = send_from_lem 0 1 lines all.1 in
        let kept : after_header (line ∷ lines) ≡ line ∷ lines = rw no_header refl in
        rw kept (
          taken_step 0 0 line lines all.0 no_header
          ∙ rw go (
              ap
                (λ n. record {
                  sent = invitation_of line ∷ map invitation_of lines;
                  count = n;
                  thrown = false;
                })
                (one_add (length lines))))
  ]

  length-after_header : (lines : List Text) → length (after_header lines) ≤ length lines
  length-after_header [] = omega arith
  length-after_header (line ∷ lines) = ground arith

  -- Where the server takes the invitations of the file, they are sent, each once and in their order, and
  -- counted; a first line that heads the column of the addresses is none of them, nor is a line behind the
  -- hundredth.
  pub send_lem :
      (text : Text)
      → All IsTaken (invitations text)
      → (send text
          ≡ record { sent = invitations text; count = length (invitations text); thrown = false })
        × (length (invitations text) ≤ 100)
  unfolding send lines_of
  send_lem text h =
      let lines = filter (λ line. not (is_empty line)) (map trim (split b'\n' text)) in
      let fewer = length-after_header (take 100 lines) in
      (
        rw (length-map invitation_of (after_header (lines_of text)))
            (send_from_start (lines_of text) h),
        rw (length-map invitation_of (after_header (lines_of text)))
            (let e = length-take 100 lines in omega arith),
      )
