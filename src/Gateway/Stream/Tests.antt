-- ===== src/Gateway/Stream/Tests.antt =====
-- internal/gateway/stream.go: a stream in chunks that cut its lines.
use axigate_finops.Prelude.{
  ◌≡◌, refl, List, [], ◌∷◌, ◌++◌, Option, none, some, Bytes, str, pos, arith, trim_space,
  starts_with, beq, length, ltb, if◌then◌else◌,
}
use axigate_finops.Gateway.Resp.Wire.{split_line}
use axigate_finops.Gateway.Stream.Usage.{
  RawUsage, SseFrame, SseUsage, new_sse_usage, openai_frame, seen_frame, consume, write_lines,
  write,
}
use axigate_finops.Gateway.Stream.Lines.{cut_lines}
use axigate_finops.Gateway.Stream.Chunks.{consume_all, AllFit, concat, write_all, write_all-write}

abbrev no_tokens_used : RawUsage
no_tokens_used = record {
  prompt_tokens = pos 0;
  completion_tokens = pos 0;
  cached_tokens = pos 0;
  input_tokens = pos 0;
  output_tokens = pos 0;
  cache_read_input_tokens = pos 0;
  cache_creation_input_tok = pos 0;
  ephemeral_5m = pos 0;
  ephemeral_1h = pos 0;
}

-- A frame with as many prompt tokens as its text has bytes; a text of two bytes is no frame.
abbrev by_length : Bytes → Option SseFrame
by_length s =
    if ltb (length s) 3
    then none
    else some (record {
      model = str "m";
      message_model = [];
      message_usage = no_tokens_used;
      usage = record no_tokens_used { prompt_tokens = pos (length s) };
      model_version = [];
      metadata = record {
        prompt_token_count = pos 0;
        candidates_token_count = pos 0;
        cached_content_token_count = pos 0;
        thoughts_token_count = pos 0;
      };
    })

abbrev new_stream : SseUsage
new_stream = new_sse_usage (str "openai") 40

abbrev chunks : List Bytes
chunks =
    (str "ta: {abc}" ++ 10 ∷ str "data: {}")
    ∷ (10 ∷ str "data: {de")
    ∷ (str "f}" ++ 13 ∷ 10 ∷ [])
    ∷ []

chunks-AllFit : AllFit 40 [] (str "da" ∷ chunks)
unfolding cut_lines
chunks-AllFit = (omega arith, (omega arith, (omega arith, (omega arith, tt))))

last_frame_counts :
    (write_all by_length new_stream (str "da" ∷ chunks)).seen.usage.input_tokens ≡ pos 5
unfolding write write_lines consume seen_frame openai_frame new_sse_usage split_line trim_space
    starts_with beq
last_frame_counts = refl

write_all-write_example :
    (write_all by_length new_stream (str "da" ∷ chunks)
      ≡ write by_length new_stream (str "da" ++ concat chunks))
    × ((write_all by_length new_stream (str "da" ∷ chunks)).seen
        ≡ consume_all by_length new_stream.provider
            (cut_lines (new_stream.buf ++ (str "da" ++ concat chunks))).0
            new_stream.seen)
unfolding new_sse_usage
write_all-write_example = write_all-write by_length new_stream (str "da") chunks chunks-AllFit
