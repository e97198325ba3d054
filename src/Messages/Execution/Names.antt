-- ===== src/Messages/Execution/Names.antt =====
-- The names that `Parse` takes out of a request.
use go_relay.Base.{
  ℕ, suc, ◌≡◌, refl, ap, ap₂, ◌∙◌, none, [], ◌∷◌, ◌++◌, Text, ok, panic, cut, split_n, Free,
  cut_first, arith,
}
use go_relay.Messages.Execution.{ExecutionRequest, parse_parts, parse}

cut-none : (c : ℕ) (s : Text) → Free c s → cut c s ≡ none
unfolding cut
cut-none c [] h = refl
cut-none c (a ∷ s) h = ground (arith, h.0, cut-none c s h.1)

split_n_first :
    (n c : ℕ) (l r : Text)
    → Free c l
    → split_n (suc (suc n)) c (l ++ (c ∷ r)) ≡ l ∷ split_n (suc n) c r
unfolding split_n
split_n_first n c l r h = rw (cut_first c l r h, split_n)

split_n_whole : (n c : ℕ) (s : Text) → Free c s → split_n (suc (suc n)) c s ≡ s ∷ []
unfolding split_n
split_n_whole n c s h = rw (cut-none c s h, split_n)

-- A request for `bundle:command` whose reply topic has the pipeline as its fourth part of five, as `/bot/pipelines/id/reply` has,
-- yields these three names, and keeps the rest; the command's name may hold further colons.
pub parse_names :
    (er : ExecutionRequest) (bundle command p0 p1 p2 pipeline tail : Text)
    → Free b':' bundle
    → Free b'/' p0
    → Free b'/' p1
    → Free b'/' p2
    → Free b'/' pipeline
    → er.command ≡ bundle ++ (b':' ∷ command)
    → er.reply_to ≡ p0 ++ (b'/' ∷ (p1 ++ (b'/' ∷ (p2 ++ (b'/' ∷ (pipeline ++ (b'/' ∷ tail)))))))
    → parse er
      ≡ ok (record er { bundle_name = bundle; command_name = command; pipeline_id = pipeline })
unfolding parse
parse_names er bundle command p0 p1 p2 pipeline tail hb h0 h1 h2 h3 hc hr =
    ap₂ (λ cs ps. parse_parts cs ps er) commands pipelines
  where
    commands : split_n 2 b':' er.command ≡ bundle ∷ command ∷ []
    commands =
        ap (split_n 2 b':') hc ∙ split_n_first 0 b':' bundle command hb ∙ unfold split_n in refl

    pipelines : split_n 5 b'/' er.reply_to ≡ p0 ∷ p1 ∷ p2 ∷ pipeline ∷ tail ∷ []
    pipelines =
        ap (split_n 5 b'/') hr
        ∙ split_n_first 3 b'/' p0 _ h0
        ∙ ap (◌∷◌ p0) (
            split_n_first 2 b'/' p1 _ h1
            ∙ ap (◌∷◌ p1) (
                split_n_first 1 b'/' p2 _ h2
                ∙ ap (◌∷◌ p2) (split_n_first 0 b'/' pipeline tail h3 ∙ unfold split_n in refl)))

-- A command with no colon in its name is a panic, whatever else the request holds.
pub parse_no_colon : (er : ExecutionRequest) → Free b':' er.command → parse er ≡ panic
unfolding parse
parse_no_colon er h =
    ap (λ cs. parse_parts cs (split_n 5 b'/' er.reply_to) er) (split_n_whole 0 b':' er.command h)
