-- ===== src/Stream.antt =====
-- lib/bench/vllm-stream-client.py: a streaming benchmark client.
-- `Consume` reads one response, `Stats` and `Aggregate` summarise the requests of one run, and
-- `Report` writes the line of the CSV file and ends the program.
pub mod Consume
pub mod Stats
pub mod Aggregate
pub mod Report
