-- ===== src/Tests/Tmuxctl.antt =====
-- A control-mode session with one command.
use mure.Base.{ℕ, Bytes, ◌≡◌, refl, true, List, [], ◌∷◌, ◌++◌, some, codes}
use mure.Base.Strings.{has_prefix}
use mure.Tmuxctl.Parse.{parse_line}
use mure.Tmuxctl.Parse.RoundTrip.{outputs, render, event_of, parse_line-render}
use mure.Tmuxctl.Client.{
  Client, Step, reads, ends_reading, requests, new_client, run, step, ends_writing, closes,
}
use mure.Tmuxctl.Client.Order.{Inv, run-new_client-Inv}
use mure.Tmuxctl.Client.Exchange.{Block, IsReady, exchange_steps, paired, run-exchanges}
use mure.Tmuxctl.Client.Stranded.{run-stranded}

parse_line-render_example :
    parse_line (render (outputs (codes "%1") (codes "a b")))
    ≡ some (event_of (outputs (codes "%1") (codes "a b")))
parse_line-render_example =
    parse_line-render (outputs (codes "%1") (codes "a b")) (refl, (refl, tt))

abbrev session : List Step
session =
    requests 0 true
    ∷ reads (codes "%begin 1 2 1")
    ∷ reads (codes "p=%1")
    ∷ reads (codes "%end 1 2 1")
    ∷ requests 1 true
    ∷ ends_reading
    ∷ []

run-new_client-Inv_example : Inv (run new_client session)
run-new_client-Inv_example = run-new_client-Inv session

abbrev asked : Client
asked = record new_client { pending = 0 ∷ []; awaiting = some 0; sent = 0 ∷ [] }

abbrev ended : Client
ended = record new_client { reader_gone = true }

run-stranded_example :
    (run (step (requests 3 true) ended) (ends_writing ∷ closes ∷ [])).answers ≡ []
run-stranded_example = run-stranded 3 ended (ends_writing ∷ closes ∷ []) refl refl refl refl

abbrev block : Bytes → List Bytes → Block
block n ls = record {
  time = codes "1";
  number = n;
  flags = codes "0";
  lines = ls;
  end_time = codes "1";
  end_number = n;
  end_flags = codes "0";
}

-- The block of the attach itself comes behind the first request, and that one's block behind the
-- second.
abbrev shifted : List (ℕ × Block)
shifted = (0, block (codes "1") []) ∷ (1, block (codes "2") (codes "%7" ∷ [])) ∷ []

new_client-IsReady : IsReady new_client
new_client-IsReady = record {
  outside = refl;
  nothing = refl;
  free = refl;
  opened = refl;
  reading = refl;
  writing = refl;
}

run-exchanges_example : (run new_client (exchange_steps shifted)).answers ≡ [] ++ paired shifted
unfolding has_prefix
run-exchanges_example = run-exchanges new_client shifted new_client-IsReady (
  record { first = ((refl, tt), (refl, tt)); last = ((refl, tt), (refl, tt)); inside = tt },
  (
    record {
      first = ((refl, tt), (refl, tt));
      last = ((refl, tt), (refl, tt));
      inside = (record { no_end = refl; no_error = refl }, tt);
    },
    tt,
  ),
)
