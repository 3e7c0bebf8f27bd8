-- ===== src/Queue/Embed/Tests.antt =====
-- The last batch of a document: chunks 1 and 2, of which the second is taken over.
use docsmint.Prelude.{◌≡◌, true, false, none, some, [], ◌∷◌, ◌==◌, if◌then◌else◌}
use docsmint.Queue.Effects.{Answers, done, raised, other, start}
use docsmint.Queue.Triples.{after}
use docsmint.Queue.Reuse.{incremental, Provider}
use docsmint.Queue.Embed.{EmbedJob, EmbedDocument, EmbedAnswers, StoreAnswer, process_embed_job}
use docsmint.Queue.Embed.Traces.{Phase, fresh, next, Ends}
use docsmint.Queue.Embed.Laws.{embed_refines}

abbrev model : Provider
model = record { model = 4; profile = 5; dimensions = 1024 }

abbrev job : EmbedJob
job = record {
  generation = 7;
  revision = 3;
  context_hash = some 9;
  refresh_mode = incremental;
  chunk_indexes = 1 ∷ 2 ∷ [];
}

abbrev document : EmbedDocument
document = record {
  revision = 3;
  pending_generation = some 7;
  active_generation = none;
  context_hash = some 9;
  candidate_chunk_indexes = 2 ∷ [];
  batch_ready = false;
  profile = none;
  chunk_count = 3;
}

abbrev answers : EmbedAnswers
answers = record {
  embedding = λ i. some model;
  store = StoreAnswer.stored;
  completion = record { all_batches_complete = true; total_chunks = 3 };
  claimed = [];
}

-- The activation, which is the fourth call, rejects.
abbrev inactive : Answers
inactive = record {
  cancelled = λ n. done false;
  current = λ _. done true;
  acted = λ n. if n == 3 then raised other else done tt;
}

embed_refines_example :
    let (r, l) = process_embed_job answers job (done (some document)) inactive start in
    (q : Phase) × (after next (some fresh) l.trace ≡ some q)
    × Ends inactive (done (some document)) r q
embed_refines_example = embed_refines inactive (done (some document)) answers job
