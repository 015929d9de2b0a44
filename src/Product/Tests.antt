-- ===== src/Product/Tests.antt =====
-- Examples of the theorems on the product console, with small files and replies.
use go_platform_starter.Prelude.{
  ◌≤◌, false, ◌∷◌, ◌++◌, ◌≡◌, refl, length, All, Text, codes, map, fold_case, trim, split_from,
}
use go_platform_starter.Product.{Reply, done}
use go_platform_starter.Product.Invites.{Invitation, lines_of, send, invitations, IsTaken, send_lem}

abbrev lower : Text → Text
lower = map fold_case

abbrev takes_all : Invitation → Reply Unit
takes_all i = done tt

abbrev file : Text
file = codes "Email,Name" ++ 13 ∷ 10 ∷ codes "ann@example.com, Ann" ++ 10 ∷ codes "bob@example.com"

invitations-IsTaken : All (IsTaken lower takes_all) (invitations lower takes_all file)
unfolding lines_of trim split_from
invitations-IsTaken = (refl, (refl, tt))

send_lem_example :
    (send lower takes_all file ≡ record {
      sent = invitations lower takes_all file;
      count = length (invitations lower takes_all file);
      thrown = false;
    })
    × (length (invitations lower takes_all file) ≤ 100)
send_lem_example = send_lem lower takes_all file invitations-IsTaken
