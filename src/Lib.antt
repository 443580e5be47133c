-- ===== src/Lib.antt =====
-- zord plans and runs the training of graph networks on temporal graphs over a cluster of unequal
-- devices. Its planner splits the work by bandwidth and tiers the window of snapshots of each device
-- between HBM and the host; its runtime keeps the resident units of a device in a buffer pool whose
-- evictions follow the known access order, and runs a control loop between watermarks.
--
-- The library has a module per part of the program:
--   * Runtime.BufferPool (src/zord/runtime/bufferpool.py): `_next_use_array`, `belady_schedule` and
--     `mrd_schedule` with the loop variables in the record `Sim`. Its child Plan has the class
--     `BufferPool`, the byte accounting and `plan_schedule`, with the compiled kernel as a parameter
--     (`Binary`); its child Window has `window_access_sequence` and `pool_from_plan`, which takes the
--     planner's `MemoryPlan`.
--   * Runtime.ControlLoop (src/zord/runtime/control_loop.py): `tick`, `run` and the measures of
--     `LoopTrace`, with the object as the state `MemoryControlLoop`.
--   * Schedule.Memory (src/zord/schedule/planner.py): one round of the loop of `plan_memory` on the
--     scalar path, with its byte model.
--   * Runtime.Watermark (src/zord/runtime/watermark.py): the overflow policy and its admissions.
--   * Datasets.TemporalGraph (src/zord/datasets/temporal_graph.py, src/zord/storage/backend.py): the
--     graph in columns, its sorting, snapshots and batches, and the store in memory. The sorting and
--     searching of numpy are the parameter Datasets.Numpy, an interface with the laws that are relied
--     on, which Datasets.Numpy.Insertion fills.
--   * Schedule.Distributed (src/zord/schedule/distributed.py): the halo exchange of a partition, the
--     counts of a rank's plan, and the check of the exchange, with the same interface of numpy.
--   * Partition.Hetero (src/zord/partition/hetero.py): the streaming placement of `ZordPartitioner` and
--     its refinement; its child Run has the orders and the whole of `partition`. The load pressure,
--     which is a float, is a parameter.
--   * Partition.Cost (src/zord/partition/base.py, src/zord/partition/cost_model.py,
--     src/zord/guarantees.py, and the hash baseline of src/zord/partition/baselines.py): the summary of
--     a partition, the footprint of a device, the limits derived from it and the check before a run.
--   * Partition.Allocate (src/zord/partition/allocate.py): the cells of the supra-graph, their cuts, and
--     the corner solver that stands in for the compiled one. numpy's `unique` is a parameter with laws
--     (Datasets.Unique).
--   * Partition.FeatureParallel (src/zord/partition/feature_parallel.py): the aggregation by slices of
--     columns, `fp_aggregate_consistency`, for any type of numbers and any addition of them; its child
--     Split has the split of the columns by weight, its child Plan the costs of the devices, the plan of
--     a split and the plans of the grids. How the floats round a share of the columns is the parameter
--     `Rounding`.
--   * Runtime.FeatureRecombine (src/zord/runtime/feature_recombine.py): the layers of the network on one
--     device and on column shards with the weights cut by rows, `verify_recombine`, and the cost of the
--     recombination, over an arithmetic whose addition is associative and has a zero.
--   * Partition.AttrCost (src/zord/partition/attr_cost.py, src/zord/profiler/cluster_profile.py): the
--     closed-form costs of the axes, the checks of the memory and `decide_axis`.
--   * Schedule.Dynamic (src/zord/schedule/dynamic.py): the placement of the changed cone on a prior
--     assignment, `partition_incremental`; its child Migration has the matching of the labels and
--     `plan_incremental`. A budget is the number of vertices `int(budget * N)`, and numpy's
--     `argpartition` is a parameter with laws (Datasets.Argpartition).
--   * Schedule.Online (src/zord/schedule/dynamic_online.py): the drift, the state and the step of online
--     ingestion, which plans with Schedule.Dynamic; its child Dependency has the event-dependency graph,
--     and its child Stream the driver `run_stream`. The scheduler, the statistics of a window and the
--     compiled kernel are parameters.
-- Base has the shared types, the Boolean tests, the lists, the dictionaries and their lemmas. A
-- dictionary is an association list in the order of insertion, as Python iterates it.
--
-- Floats are scaled to integers where the code multiplies by constants (the control loop, the
-- allocator margin of the planner), and quotients are kept exact (`Ratio`), so rounding is not
-- modelled. Byte counts and ids are natural numbers; where the code subtracts, the model says what
-- a negative value does; in the control loop an eviction is negative where the low watermark is above
-- the high one, which its theorems exclude. The columns of a list of edges are of the same length. Fuel
-- is the guard of 100000 rounds that the drain of the control loop has in the code itself, of which `drain_ends` says when it is enough, and one round more than there are
-- placed vertices for the loop that balances the devices (`spill`), which is always enough; every
-- other loop is recursion on the list it goes through, on a range counted down, or on a range with a
-- bound on its length written where it is used.
--
-- Not modelled: the compiled kernels, which the code runs as processes; the profiler, the command
-- line, the loaders, the texts of reports; the times of a memory plan; the threshold of the relief by
-- columns, which only a text uses; the parts that PROJECT.json lists as such.
pub mod Base
pub mod Schedule
pub mod Runtime
pub mod Datasets
pub mod Partition
