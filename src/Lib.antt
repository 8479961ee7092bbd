-- ===== src/Lib.antt =====
-- Verification of the fac-lpr engine, a library that recognizes Turkish licence plates.
--
-- A detector finds plates in an image, recognizers read each plate from several crops, the candidate
-- fusion joins their candidates, the decision policy accepts the best one, sends it to a review or
-- rejects it, and a stream session turns the accepted plates of many frames into events: the
-- consensus decides which plate the recent frames agree on, and the event filter emits it once.
--
-- The files, with the code that each models (`application` is src/application with
-- include/fac_lpr/application):
--   Prelude              shared names, tests on numbers, lists, texts, durations
--   Errors               application/error.hpp; an exception is a `Result` with its code
--   Float                the floats of the code, as a parameter, and an instance in thousandths
--   OrderedMap           std::map with texts as keys
--   StableSort           std::stable_sort
--   Domain               include/fac_lpr/domain: detections, candidates, evidence, results
--   Config               application/config.hpp: `validate_engine_config`
--   Image                application/image_validation.cpp: `make_image_view`, `validate_image`
--   Budget               application/resource_budget.hpp: `checked_resource_multiply` and the checks
--   Grammar              application/turkish_plate_grammar.cpp: `normalize`, `is_valid`,
--                        `is_valid_prefix`, `province_code`
--   CandidateFusion      application/candidate_fusion.cpp: `fuse`
--   Calibration          application/confidence_calibration.cpp: `calibrate`, `find_segment`
--   Decision             application/safe_decision_policy.cpp: `decide`
--   Effects              application/operation_context.hpp: code that may throw and that changes a
--                        world, the clock, stop tokens and deadlines; postconditions of such code
--   Ensemble             application/recognition_ensemble.cpp: `recognize`, `make_ensemble`
--   EngineDiagnostics    application/engine_diagnostics.cpp: the `record` and `set` operations, `snapshot`
--   Pipeline             application/lpr_pipeline.cpp: the dependencies and `make_pipeline`; Crops has
--                        the helpers and the loop over the crops, Detections the rest of `recognize`;
--                        Standard is the pipeline with the fusion and the policy of
--                        tools/lpr-cli/cli_engine_factory.cpp
--   Consensus            application/temporal_plate_consensus.cpp: `observe`, `reset`
--   EventFilter          application/stable_plate_event_filter.cpp: `observe`, `reset`
--   Session              application/recognition_stream_session.cpp: `recognize_at`, `reset`, `close`
--   NativeImage          src/infrastructure/native_image/native_image.cpp: `make_crop_view`
--   AdaptiveTile         src/infrastructure/adaptive/adaptive_tile_detector.cpp: the origins
--                        and the merge; Detect has `detect`
--   CtcDecoder           src/infrastructure/lprnet/ctc_decoder.cpp: `decode`
--   ResultBuffer         src/c_api/result_buffer.cpp with fac_lpr_engine.h and error_boundary.hpp: the
--                        structures; Writer has `BufferWriter`, Serialize `serialize_result_v1`
--   WorkerPool           src/infrastructure/concurrency/bounded_worker_pool.cpp: `submit`, `shutdown`,
--                        `worker_loop`, and their interleavings (WorkerPool/Schedule)
--   Samples              data for the examples
-- The modules below a file are named for what they prove; `Examples` holds runs of the code and the
-- theorems applied to them. A state is a record with the fields of the class, without the trailing
-- underscore; an operation takes the state and returns the new one, and throws by returning
-- `err`, or `throws` where exceptions of any class may pass.
--
-- Choices of the model:
--   - `float` and `double` are types with the operations that the code uses. Where a theorem needs the
--     order of IEEE 754 on finite numbers, it assumes `IsOrdered`; nothing is assumed of rounding.
--   - `std::size_t` has 64 bits. Its arithmetic wraps where the code's does. A size of a container that
--     is in memory is a natural number.
--   - A text is the list of its bytes, 0 to 255. `char` comparisons with ASCII constants then mean the
--     same, whether `char` is signed or not.
--   - A time point of the steady clock is a natural number of nanoseconds, and a duration in the
--     configuration an integer of milliseconds, which does not overflow when it is converted.
--   - The adapters behind the interfaces of the pipeline, the recognizers, the clock and the stop tokens
--     are actions in a world `W`, a parameter: each call may change it and may throw anything. Nothing
--     is assumed of them. The steady clock may even go back.
--   - A session holds its mutex for a whole call, so it is a sequence of calls, and what the pipeline
--     returns or throws in a call is an argument. The pool holds its mutex for a section, so a
--     schedule is a sequence of sections of any threads. A wait is a section that does not take place.
--   - `std::log` and `std::exp` are parameters of the calibration and of the CTC decoder, as are the
--     casts between numbers; nothing is assumed of them but what a theorem names.
--   - Loops over containers are recursions over lists, which end. The loop over the origins of the
--     tiles runs on fuel, the extent of the image, which is enough: each turn goes on by one at least.
--   - The result buffer is the list of the copies into it, each with its offset; the structures of
--     version 1 have fields of four bytes and no padding.
--   - The messages of errors are left out; only their codes count.
--
-- Not modelled: the fusion of detectors, the constrained CTC beam search, the other functions of the C
-- interface, the model lifecycle, the adapters for ONNX Runtime, OpenCV and JSON, image kernels,
-- logging, the self test, tools and tests.
pub mod AdaptiveTile
pub mod Budget
pub mod Calibration
pub mod CandidateFusion
pub mod Config
pub mod Consensus
pub mod CtcDecoder
pub mod Decision
pub mod Domain
pub mod Effects
pub mod EngineDiagnostics
pub mod Ensemble
pub mod Errors
pub mod EventFilter
pub mod Float
pub mod Grammar
pub mod Image
pub mod NativeImage
pub mod OrderedMap
pub mod Pipeline
pub mod Prelude
pub mod ResultBuffer
pub mod Samples
pub mod Session
pub mod StableSort
pub mod WorkerPool
