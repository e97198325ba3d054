-- ===== src/Startup/Messages.antt =====
-- The message that an invalid configuration is reported with.
use go_relay.Base.{
  ◌≡◌, refl, sym, ap, ◌∙◌, List, [], ◌∷◌, ◌++◌, append-nil, append_assoc, Text, lit, split, join,
}
use go_relay.Startup.{nonempty, add_messages, error_message}

abbrev pub indented : List Text → List Text
indented [] = []
indented (msg ∷ msgs) = (lit "  " ++ msg) ∷ indented msgs

add_messages_lem :
    (log_message : Text) (msgs : List Text)
    → add_messages log_message msgs ≡ log_message ++ join b'\n' (indented msgs)
unfolding add_messages join
add_messages_lem log_message [] = sym (append-nil log_message)
add_messages_lem log_message (msg ∷ []) = refl
add_messages_lem log_message (msg ∷ next ∷ msgs) =
    add_messages_lem _ (next ∷ msgs)
    ∙ (append_assoc log_message (lit "  " ++ (msg ++ lit "\n"))
          (join b'\n' (indented (next ∷ msgs)))
        ∙ ap (λ t. log_message ++ (lit "  " ++ t))
            (append_assoc msg (lit "\n") (join b'\n' (indented (next ∷ msgs)))))

-- The errors of a configuration, separated by semicolons, are reported as lines: each error that is
-- not empty, in its order, behind two spaces.
pub error_message_lem :
    (e : Text) → error_message e ≡ join b'\n' (indented (nonempty (split e b';')))
unfolding error_message
error_message_lem e = add_messages_lem [] (nonempty (split e b';'))
