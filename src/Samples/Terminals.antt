-- ===== src/Samples/Terminals.antt =====
-- A client of the samples.
use kb_pm.Prelude.{
  ℕ, ◌≡◌, refl, true, none, [], arith, ℤ, pos, done, Outcome, undefined, exited, replaced,
  replicate,
}
use kb_pm.CString.{Str, text}
use kb_pm.System.{Log}
use kb_pm.Process.{Process}
use kb_pm.Process.Json.{create_process_json_str, parse_process}
use kb_pm.Server.Service.{zero_process}
use kb_pm.Utils.{is_delimiter}
use kb_pm.Utils.Split.{IsPlain}
use kb_pm.Client.{Terminal, new_process}
use kb_pm.Client.NewProgram.{start_document}
use kb_pm.Samples.Documents.{documents}
use kb_pm.Samples.Laws.{documents-IsDocumentLibrary}
use kb_pm.Samples.Reading.{documents-ReadsBack}
use kb_pm.Samples.Opened.{opened}
use kb_pm.Samples.Runs.{cons_ne_nil}

-- Nobody listens.
abbrev pub terminal : Terminal
terminal = record {
  Peer = ℕ;
  connect = λ peer. none;
  send = λ peer message. ([], peer);
  json = documents;
  fallthrough = λ p. pos 0;
  exists = λ path. true;
  executable = λ path. true;
  cwd = text "/srv";
  time = λ i. pos 2000;
  stack_buffer = replicate 20 0;
  stack_process = zero_process;
  stack_list = [];
}

abbrev pub new : Process
new = record zero_process {
  app_name = text "a.out";
  cmd = text "/home/a.out";
  dir = text "/srv";
  is_running = pos 1;
}

makes_new : new_process terminal (text "/home/a.out") ≡ done new
unfolding opened
makes_new = refl

abbrev sent : Outcome Log (ℤ × Str) → Str
sent (done a) = a.1
sent (exited n w) = []
sent (replaced w) = []
sent (undefined e) = []

abbrev pub document : Str
document = sent (create_process_json_str documents new [])

pub makes_document : create_process_json_str documents new [] ≡ done (pos 0, document)
unfolding opened
makes_document = refl

pub a_out-IsPlain : IsPlain (text "/") (text "a.out")
unfolding is_delimiter
a_out-IsPlain = ground arith

start_document_example :
    (res : ℤ) × (parse_process documents terminal.fallthrough zero_process document
      ≡ done (
        res,
        record zero_process {
          app_name = text "a.out";
          cmd = text "/home/a.out";
          dir = text "/srv";
          is_running = pos 1;
        },
      ))
start_document_example =
    start_document terminal (text "/home") (text "a.out") new zero_process [] document
      documents-IsDocumentLibrary a_out-IsPlain (cons_ne_nil _ _) (omega arith) makes_new
      makes_document (documents-ReadsBack document)
